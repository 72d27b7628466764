-- ===== src/Finance/Summary/Step.antt =====
-- internal/finance/summary.go: one round of the loop of `BudgetSummary`, on every branch.
use domains_checker_infomati.Base.{
  ℕ, ◌+◌, List, [], ◌∷◌, Option, none, some, true, ◌≡◌, refl, subst, arith, Option-cases,
  Bool-cases, inl, inr,
}
use domains_checker_infomati.Base.Int.{ℤ}
use domains_checker_infomati.Base.Text.{Text, text_eq}
use domains_checker_infomati.Base.Outcome.{Outcome, ok, failed}
use domains_checker_infomati.Finance.Decimal.{Decimal, parse_decimal, mul}
use domains_checker_infomati.Finance.Engine.{CostInput, CostResult, calculate}
use domains_checker_infomati.Finance.Engine.Costs.{Readable, IsPriced, calculate-IsCosted}
use domains_checker_infomati.Finance.Summary.Books.{
  BudgetCost, Books, convert_for_summary, usable_rate, normalize_currency,
}
use domains_checker_infomati.Finance.Summary.Windows.{WindowName, applicable_windows, touch}
use domains_checker_infomati.Finance.Summary.Count.{
  Tally, cost_input, convert_ignoring, one_domain, count_known, count_converted, count_calculated,
  count_input, count_cost,
}
use domains_checker_infomati.Finance.Summary.Entries.{Amounts, ConvertsTo, IsEntry, missing, sum_of}

-- What the loop has done to the sums after these entries.
pub record Settles (t : Tally) (es : List (Option Amounts)) (next : Tally) : Type 0 where
  pub counts :
      next.unknown_cost_count + next.unknown_tax_count + next.fx_incomplete_count
      ≡ t.unknown_cost_count + t.unknown_tax_count + t.fx_incomplete_count + missing es
  pub renewal : next.renewal_total ≡ sum_of (λ a. a.cycle) es t.renewal_total
  pub tax : next.tax_total ≡ sum_of (λ a. a.tax) es t.tax_total
  pub annual : next.annual_total ≡ sum_of (λ a. a.annual) es t.annual_total

-- Whether an amount has a conversion depends on its currency only.
same_rate :
    (b : Books) (x y : Text) (currency : Text) (d dx dy : Decimal)
    → parse_decimal x 6 ≡ ok dx
    → parse_decimal y 6 ≡ ok dy
    → convert_for_summary b x currency ≡ some d
    → (e : Decimal) × (convert_for_summary b y currency ≡ some e)
unfolding convert_for_summary
same_rate b x y currency d dx dy hx hy h =
    elim (Bool-cases (text_eq (normalize_currency currency) b.reporting_currency)) [
      | inl same ↦ (dy, ground arith)
      | inr other ↦ elim (Option-cases (usable_rate b (normalize_currency currency))) [
        | inl no_rate ↦ absurd (ground arith)
        | inr (rate, found) ↦ (mul dy rate, ground arith)
      ]
    ]

Readable-converts :
    (b : Books) (r : CostResult) (x : Option Text) (t : Text) (d dt : Decimal)
    → Readable x
    → parse_decimal t 6 ≡ ok dt
    → convert_for_summary b t r.currency ≡ some d
    → (e : Decimal) × ConvertsTo b r x e
Readable-converts b r none t d dt read ht h = absurd read
Readable-converts b r (some x) t d dt (dx, hx) ht h =
    let (e, converted) = same_rate b t x r.currency d dt dx ht hx h in (e, (x, refl, converted))

Readable-text :
    (x : Option Text)
    → Readable x
    → (t : Text) × (d : Decimal) × (x ≡ some t) × (parse_decimal t 6 ≡ ok d)
Readable-text none read = absurd read
Readable-text (some t) (d, read) = (t, d, refl, read)

ignoring-converts :
    (b : Books) (r : CostResult) (x : Option Text) (d : Decimal)
    → ConvertsTo b r x d
    → convert_ignoring b x r.currency ≡ ok d
unfolding convert_ignoring
ignoring-converts b r x d (t, e, h) = ground arith

-- The loop goes on with an entry for this domain.
pub record Counted (b : Books) (c : BudgetCost) (t : Tally) (m : Outcome Tally) : Type 0 where
  pub next : Tally
  pub entry : Option Amounts
  pub returned : m ≡ ok next
  pub kind : IsEntry b c entry
  pub settled : Settles t (entry ∷ []) next

module _ (b : Books) (c : BudgetCost) (names : List WindowName) (t : Tally) where
  not_converted :
      (input : CostInput) (r : CostResult)
      → cost_input c ≡ some input
      → calculate input ≡ ok r
      → ((a : Amounts) → r.complete ≡ true → ConvertsTo b r r.cycle_total a.cycle → ⊥)
      → IsEntry b c none
  not_converted input r recorded calculated fails a converted =
      let same : converted.result ≡ r = ground arith in
      fails a (cc) (subst (λ s. ConvertsTo b s s.cycle_total a.cycle) same converted.cycle)

  converted-Counted :
      (input : CostInput) (r : CostResult) (total : Text) (found : Decimal)
      → cost_input c ≡ some input
      → calculate input ≡ ok r
      → r.complete ≡ true
      → IsPriced r
      → r.cycle_total ≡ some total
      → parse_decimal total 6 ≡ ok found
      → (o : Option Decimal) → convert_for_summary b total r.currency ≡ o
      → Counted b c t (count_converted b names r o t)
  unfolding count_converted count_known
  converted-Counted input r total found recorded calculated done priced cycle read none h = record {
    next = _;
    entry = none;
    returned = refl;
    kind =
        not_converted input r recorded calculated
          (λ a e k. let (text, shown, converted) = k in ground arith);
    settled = record { counts = omega arith; renewal = refl; tax = refl; annual = refl };
  }
  converted-Counted input r total found recorded calculated done priced cycle read (some d) h =
      let (tax_read, cycle_read, annual_read) = priced.whole done in
      let (tax, tax_converts) = Readable-converts b r r.tax_amount total d found tax_read read h in
      let (annual, annual_converts) =
        Readable-converts b r r.annual_estimate total d found annual_read read h in
      record {
        next = count_known names d tax annual t;
        entry = some (record { cycle = d; tax = tax; annual = annual });
        returned =
            rw (ignoring-converts b r r.tax_amount tax tax_converts)
              (rw (ignoring-converts b r r.annual_estimate annual annual_converts) refl);
        kind = record {
          input = input;
          result = r;
          recorded = recorded;
          calculated = calculated;
          complete = done;
          cycle = (total, cycle, h);
          tax = tax_converts;
          annual = annual_converts;
        };
        settled = record { counts = omega arith; renewal = refl; tax = refl; annual = refl };
      }

  calculated-Counted :
      (input : CostInput)
      → cost_input c ≡ some input
      → (m : Outcome CostResult) → calculate input ≡ m
      → Counted b c t (count_calculated b names m t)
  unfolding count_calculated count_converted
  calculated-Counted input recorded (failed e) calculated = record {
    next = _;
    entry = none;
    returned = refl;
    kind = λ a k. absurd (ground (arith, k.recorded, k.calculated));
    settled = record { counts = omega arith; renewal = refl; tax = refl; annual = refl };
  }
  calculated-Counted input recorded (ok r) calculated = elim (Bool-cases r.complete) [
    | inr partial ↦ rw partial (record {
      next = _;
      entry = none;
      returned = refl;
      kind = not_converted input r recorded calculated (λ a e k. cc);
      settled = record { counts = omega arith; renewal = refl; tax = refl; annual = refl };
    })
    | inl done ↦
        let priced = (calculate-IsCosted input calculated).priced in
        let (total, found, shown, read) = Readable-text r.cycle_total (priced.whole done).1 in
        rw done (
          rw shown (
            converted-Counted input r total found recorded calculated done priced shown read _
              refl))
  ]

  input-Counted :
      (o : Option CostInput) → cost_input c ≡ o → Counted b c t (count_input b names o t)
  unfolding count_input
  input-Counted none unrecorded = record {
    next = _;
    entry = none;
    returned = refl;
    kind = λ a k. absurd (ground (arith, k.recorded));
    settled = record { counts = omega arith; renewal = refl; tax = refl; annual = refl };
  }
  input-Counted (some input) recorded = calculated-Counted input recorded (calculate input) refl

pub count_cost-Counted :
    (b : Books) (year : ℤ → ℕ) (c : BudgetCost) (t : Tally) → Counted b c t (count_cost b year c t)
unfolding count_cost
count_cost-Counted b year c t =
    let names = applicable_windows year b.now c.expires_at in
    let counted =
      input-Counted b c names (record t { windows = touch one_domain names t.windows })
        (cost_input c) refl in
    record {
      next = counted.next;
      entry = counted.entry;
      returned = counted.returned;
      kind = counted.kind;
      settled = record {
        counts = counted.settled.counts;
        renewal = counted.settled.renewal;
        tax = counted.settled.tax;
        annual = counted.settled.annual;
      };
    }
