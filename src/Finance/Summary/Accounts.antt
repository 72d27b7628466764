-- ===== src/Finance/Summary/Accounts.antt =====
-- internal/finance/summary.go: what `BudgetSummary` says of every domain.
use domains_checker_infomati.Base.{
  ℕ, suc, ◌+◌, List, [], ◌∷◌, Option, none, some, true, ◌≡◌, ◌↔◌, refl, sym, ap, arith,
  Option-cases, inl, inr,
}
use domains_checker_infomati.Base.Int.{ℤ}
use domains_checker_infomati.Base.Text.{Text, byte_length}
use domains_checker_infomati.Base.Outcome.{ok}
use domains_checker_infomati.Finance.Decimal.{Decimal, from_int, add, float_string}
use domains_checker_infomati.Finance.Summary.Books.{
  BudgetCost, Books, convert_for_summary, normalize_currency,
}
use domains_checker_infomati.Finance.Summary.Count.{
  Tally, Summary, BudgetTables, count_costs, purchase_total, summary_of, empty_tally, books_of,
  costs_of, budget_summary,
}
use domains_checker_infomati.Finance.Summary.Entries.{
  Amounts, Entries, missing, sum_of, unconverted,
}
use domains_checker_infomati.Finance.Summary.Step.{Settles, count_cost-Counted}

missing-sum :
    (e : Option Amounts) (es : List (Option Amounts))
    → missing (e ∷ es) ≡ missing (e ∷ []) + missing es
missing-sum none es = omega arith
missing-sum (some a) es = omega arith

sum_of-step :
    (f : Amounts → Decimal) (e : Option Amounts) (es : List (Option Amounts)) (total : Decimal)
    → sum_of f (e ∷ es) total ≡ sum_of f es (sum_of f (e ∷ []) total)
sum_of-step f none es total = refl
sum_of-step f (some a) es total = refl

Settles-step :
    (e : Option Amounts) (es : List (Option Amounts)) (t next last : Tally)
    → Settles t (e ∷ []) next
    → Settles next es last
    → Settles t (e ∷ es) last
Settles-step e es t next last p q = record {
  counts = omega (arith, p.counts, q.counts, missing-sum e es);
  renewal = rw (sum_of-step (λ a. a.cycle) e es t.renewal_total, sym p.renewal) q.renewal;
  tax = rw (sum_of-step (λ a. a.tax) e es t.tax_total, sym p.tax) q.tax;
  annual = rw (sum_of-step (λ a. a.annual) e es t.annual_total, sym p.annual) q.annual;
}

count_costs-Settles :
    (b : Books) (year : ℤ → ℕ) (cs : List BudgetCost) (t : Tally)
    → (next : Tally) × (es : List (Option Amounts)) × (count_costs b year cs t ≡ ok next)
      × Entries b cs es
      × Settles t es next
unfolding count_costs
count_costs-Settles b year [] t =
    (t, [], refl, tt, record { counts = omega arith; renewal = refl; tax = refl; annual = refl })
count_costs-Settles b year (c ∷ cs) t =
    let counted = count_cost-Counted b year c t in
    let (last, es, returned, kinds, settled) = count_costs-Settles b year cs counted.next in
    (
      last,
      counted.entry ∷ es,
      rw counted.returned returned,
      (counted.kind, kinds),
      Settles-step counted.entry es t counted.next last counted.settled settled,
    )

purchase_total-unconverted :
    (b : Books) (rows : List (Text × Text)) (total : Decimal) (n : ℕ)
    → (purchase_total b rows total n).1 ≡ n + unconverted b rows
unfolding purchase_total
purchase_total-unconverted b [] total n = omega arith
purchase_total-unconverted b ((amount, currency) ∷ rows) total n =
    elim (Option-cases (convert_for_summary b amount currency)) [
      | inl e ↦ ground (arith, e, purchase_total-unconverted b rows total (suc n))
      | inr (d, e) ↦ ground (arith, e, purchase_total-unconverted b rows (add total d) n)
    ]

-- The summary of these costs and purchases, with an entry for each cost.
pub record IsAccounted (b : Books) (cs : List BudgetCost) (rows : List (Text × Text)) (s : Summary)
    : Type 0 where
  pub entries : List (Option Amounts)
  pub kinds : Entries b cs entries
  pub counts :
      s.unknown_cost_count + s.unknown_tax_count + s.fx_incomplete_count
      ≡ missing entries + unconverted b rows
  pub complete : (s.complete ≡ true) ↔ (missing entries + unconverted b rows ≡ 0)
  pub renewal : s.total_renewal_cost ≡ float_string 6 (sum_of (λ a. a.cycle) entries (from_int 0))
  pub tax : s.estimated_tax ≡ float_string 6 (sum_of (λ a. a.tax) entries (from_int 0))
  pub annual : s.total_annual_budget ≡ float_string 6 (sum_of (λ a. a.annual) entries (from_int 0))

-- For a currency code of three bytes `BudgetSummary` always returns: no conversion whose failure it
-- ignores fails. Each active domain has then one entry: its three amounts in the reporting currency,
-- where its cost is recorded, calculated and has a usable rate, and no amounts otherwise. The totals are
-- the printed sums over the entries, the three counters add up to the domains and purchases without
-- amounts, and the summary is complete exactly when there are none of these.
pub budget_summary-IsAccounted :
    (l : BudgetTables) (raw : Text)
    → byte_length (normalize_currency raw) ≡ 3
    → (s : Summary) × (budget_summary l raw ≡ ok s)
      × IsAccounted (books_of l (normalize_currency raw)) (costs_of l) l.purchases s
unfolding budget_summary summary_of
budget_summary-IsAccounted l raw h =
    let b = books_of l (normalize_currency raw) in
    let (t, es, returned, kinds, settled) = count_costs-Settles b l.year (costs_of l) empty_tally in
    let bought = purchase_total-unconverted b l.purchases (from_int 0) 0 in
    (
      summary_of b t (purchase_total b l.purchases (from_int 0) 0),
      rw h (rw returned refl),
      record {
        entries = es;
        kinds = kinds;
        counts = omega (arith, settled.counts, bought);
        complete = (
          λ e. ground (arith, settled.counts, bought),
          λ e. ground (arith, settled.counts, bought),
        );
        renewal = ap (float_string 6) settled.renewal;
        tax = ap (float_string 6) settled.tax;
        annual = ap (float_string 6) settled.annual;
      },
    )
