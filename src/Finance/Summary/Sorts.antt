-- ===== src/Finance/Summary/Sorts.antt =====
-- internal/finance/summary.go: what one round of `BudgetSummary` says of a domain in its windows.
use domains_checker_infomati.Base.{
  ℕ, ◌+◌, ◌≤◌, List, Option, none, some, ◌≡◌, refl, arith, Bool-cases, inl, inr,
}
use domains_checker_infomati.Base.Outcome.{Outcome, ok, failed, Ensures, >>=-Ensures, require}
use domains_checker_infomati.Finance.Decimal.{Decimal}
use domains_checker_infomati.Finance.Engine.{CostInput, CostResult, calculate}
use domains_checker_infomati.Finance.Summary.Books.{Books}
use domains_checker_infomati.Finance.Summary.Windows.{WindowName}
use domains_checker_infomati.Finance.Summary.Count.{
  Tally, convert_ignoring, one_unknown, one_known, count_known, count_converted, count_calculated,
  count_input, nil_pointer,
}
use domains_checker_infomati.Finance.Summary.Hits.{hits, touch_counts, touch_keeps}

anything {ℓ} : {A : Type ℓ} (m : Outcome A) → Ensures (λ a. Unit {0}) m
anything (ok a) = tt
anything (failed e) = tt

-- The domains of the window stay, and at most `n` more of them are said to be known or unknown.
pub record Sorts (key : WindowName) (n : ℕ) (t next : Tally) : Type 0 where
  pub domains : (next.windows key).domain_count ≡ (t.windows key).domain_count
  pub sorted :
      (next.windows key).known_renewals + (next.windows key).unknown_costs
      ≤ (t.windows key).known_renewals + (t.windows key).unknown_costs + n

module _ (b : Books) (key : WindowName) (names : List WindowName) (t : Tally) where
  known-Sorts :
      (cycle tax annual : Decimal)
      → Sorts key (hits names key) t (count_known names cycle tax annual t)
  unfolding count_known
  known-Sorts cycle tax annual = record {
    domains = touch_keeps key one_known (λ w. w.domain_count) names t.windows (λ w. refl);
    sorted = omega (
      arith,
      touch_counts key one_known (λ w. w.known_renewals) names t.windows (λ w. refl),
      touch_keeps key one_known (λ w. w.unknown_costs) names t.windows (λ w. refl),
    );
  }

  converted-Sorts :
      (r : CostResult) (o : Option Decimal)
      → Ensures (Sorts key (hits names key) t) (count_converted b names r o t)
  unfolding count_converted
  converted-Sorts r none = record { domains = refl; sorted = omega arith }
  converted-Sorts r (some cycle) =
      >>=-Ensures (λ d. Unit {0}) (Sorts key (hits names key) t)
        (convert_ignoring b r.tax_amount r.currency) _ (anything _)
        (λ tax q.
          >>=-Ensures (λ d. Unit {0}) (Sorts key (hits names key) t)
            (convert_ignoring b r.annual_estimate r.currency) _ (anything _)
            (λ annual q. known-Sorts cycle tax annual))

  calculated-Sorts :
      (m : Outcome CostResult)
      → Ensures (Sorts key (hits names key) t) (count_calculated b names m t)
  unfolding count_calculated count_converted
  calculated-Sorts (failed e) = record { domains = refl; sorted = omega arith }
  calculated-Sorts (ok r) = elim (Bool-cases r.complete) [
    | inr partial ↦ rw (partial, Ensures) (record { domains = refl; sorted = omega arith })
    | inl done ↦ rw done (
        >>=-Ensures (λ d. Unit {0}) (Sorts key (hits names key) t)
          (require r.cycle_total nil_pointer) _ (anything _) (λ total q. converted-Sorts r _))
  ]

  pub input-Sorts :
      (o : Option CostInput) → Ensures (Sorts key (hits names key) t) (count_input b names o t)
  unfolding count_input
  input-Sorts none = record {
    domains = touch_keeps key one_unknown (λ w. w.domain_count) names t.windows (λ w. refl);
    sorted = omega (
      arith,
      touch_counts key one_unknown (λ w. w.unknown_costs) names t.windows (λ w. refl),
      touch_keeps key one_unknown (λ w. w.known_renewals) names t.windows (λ w. refl),
    );
  }
  input-Sorts (some input) = calculated-Sorts (calculate input)
