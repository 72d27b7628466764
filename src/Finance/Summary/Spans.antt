-- ===== src/Finance/Summary/Spans.antt =====
-- internal/finance/summary.go: how many domains the windows of `BudgetSummary` count.
use domains_checker_infomati.Base.{ℕ, ◌+◌, ◌≤◌, List, [], ◌∷◌, ◌≡◌, refl, subst, arith}
use domains_checker_infomati.Base.Int.{ℤ}
use domains_checker_infomati.Base.Text.{Text}
use domains_checker_infomati.Base.Outcome.{ok, ◌>>=◌, ok-Ensures, bind_result}
use domains_checker_infomati.Finance.Decimal.{from_int}
use domains_checker_infomati.Finance.Summary.Books.{BudgetCost, Books, normalize_currency}
use domains_checker_infomati.Finance.Summary.Windows.{WindowName, applicable_windows, touch}
use domains_checker_infomati.Finance.Summary.Count.{
  Tally, Summary, BudgetTables, cost_input, one_domain, count_cost, count_costs, purchase_total,
  summary_of, empty_tally, books_of, costs_of, budget_summary,
}
use domains_checker_infomati.Finance.Summary.Hits.{
  expires_in, one, expiring, hits, hits-applicable, touch_counts, touch_keeps,
}
use domains_checker_infomati.Finance.Summary.Sorts.{Sorts, input-Sorts}

-- The window has counted so many domains more, and at most those are known or unknown.
record Spans (key : WindowName) (n : ℕ) (t next : Tally) : Type 0 where
  domains : (next.windows key).domain_count ≡ (t.windows key).domain_count + n
  sorted :
      (next.windows key).known_renewals + (next.windows key).unknown_costs
      ≤ (t.windows key).known_renewals + (t.windows key).unknown_costs + n

module _ (b : Books) (year : ℤ → ℕ) (key : WindowName) where
  count_cost-Spans :
      (c : BudgetCost) (t next : Tally)
      → count_cost b year c t ≡ ok next
      → Spans key (one (expires_in year b.now key c.expires_at)) t next
  unfolding count_cost
  count_cost-Spans c t next h =
      let names = applicable_windows year b.now c.expires_at in
      let seen : Tally = record t { windows = touch one_domain names t.windows } in
      let sorts =
        ok-Ensures (Sorts key (hits names key) seen) _ (input-Sorts b key names seen (cost_input c))
          h in
      let once = hits-applicable year b.now c.expires_at key in
      record {
        domains = omega (
          arith,
          once,
          sorts.domains,
          touch_counts key one_domain (λ w. w.domain_count) names t.windows (λ w. refl),
        );
        sorted = omega (
          arith,
          once,
          sorts.sorted,
          touch_keeps key one_domain (λ w. w.known_renewals) names t.windows (λ w. refl),
          touch_keeps key one_domain (λ w. w.unknown_costs) names t.windows (λ w. refl),
        );
      }

  count_costs-Spans :
      (cs : List BudgetCost) (t next : Tally)
      → count_costs b year cs t ≡ ok next
      → Spans key (expiring year b.now key cs) t next
  unfolding count_costs
  count_costs-Spans [] t next h =
      let same : t ≡ next = ground (arith, h) in
      subst (Spans key 0 t) same (record { domains = omega arith; sorted = omega arith })
  count_costs-Spans (c ∷ cs) t last h =
      let (next, first, rest) = bind_result (count_cost b year c t) (count_costs b year cs) h in
      let p = count_cost-Spans c t next first in
      let q = count_costs-Spans cs next last rest in
      record {
        domains = omega (arith, p.domains, q.domains);
        sorted = omega (arith, p.sorted, q.sorted);
      }

-- In every summary that `BudgetSummary` returns, each window counts exactly the active domains that
-- expire in it and have not yet expired, and its known renewals and unknown costs together are at most
-- these.
pub budget_summary-windows :
    (l : BudgetTables) (raw : Text) (s : Summary) (name : WindowName)
    → budget_summary l raw ≡ ok s
    → ((s.windows name).0.domain_count ≡ expiring l.year l.now name (costs_of l))
      × ((s.windows name).0.known_renewals + (s.windows name).0.unknown_costs
          ≤ (s.windows name).0.domain_count)
unfolding budget_summary summary_of
budget_summary-windows l raw s name h =
    let b = books_of l (normalize_currency raw) in
    let bought = purchase_total b l.purchases (from_int 0) 0 in
    let counting : (count_costs b l.year (costs_of l) empty_tally >>= λ t.
    ok (summary_of b t bought))
        ≡ ok s =
      ground arith in
    let (t, counted, summed) =
      bind_result (count_costs b l.year (costs_of l) empty_tally) _ counting in
    let spans = count_costs-Spans b l.year name (costs_of l) empty_tally t counted in
    (ground (arith, spans.domains), ground (arith, spans.domains, spans.sorted))
