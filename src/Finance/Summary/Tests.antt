-- ===== src/Finance/Summary/Tests.antt =====
-- The budget of three domains (internal/finance/summary.go).
use domains_checker_infomati.Base.{
  ℕ, ◌+◌, ◌*◌, ◌≤◌, String, List, [], ◌∷◌, Option, none, some, Bool, false, ◌≡◌, refl,
}
use domains_checker_infomati.Base.Int.{ℤ, pos, ◌+ℤ◌, ◌-ℤ◌, ◌*ℤ◌}
use domains_checker_infomati.Base.Text.{Text, codes, trim, lower, upper, byte_length}
use domains_checker_infomati.Base.Digits.{read_digits}
use domains_checker_infomati.Base.Outcome.{Outcome, ok, failed}
use domains_checker_infomati.Finance.Decimal.{
  parse_decimal, float_string, rounded, shown, padded, add, sub, mul, quo,
}
use domains_checker_infomati.Finance.Engine.{
  calculate, calculate_mode, calculate_exempt, calculate_taxed, parse_checked,
}
use domains_checker_infomati.Finance.Summary.Books.{
  BudgetCost, active_overrides, override, overridden, latest_rates, rate_of, is_outdated,
  usable_rate, convert_for_summary, normalize_currency,
}
use domains_checker_infomati.Finance.Summary.Windows.{
  next_30_days, WindowName-discrete, same_window, day, applicable_windows, touch,
}
use domains_checker_infomati.Finance.Summary.Count.{
  Summary, BudgetTables, cost_input, convert_ignoring, count_known, count_converted,
  count_calculated, count_input, count_cost, count_costs, purchase_total, summary_of, books_of,
  costs_of, budget_summary,
}
use domains_checker_infomati.Finance.Summary.Hits.{expiring}
use domains_checker_infomati.Finance.Summary.Accounts.{IsAccounted, budget_summary-IsAccounted}
use domains_checker_infomati.Finance.Summary.Spans.{budget_summary-windows}

abbrev days : ℕ → ℤ
days n = pos (n * day)

-- 100 baht without a tax, for two years.
abbrev local : BudgetCost
local = record {
  domain_id = 1;
  expires_at = some (days 120);
  amount = some (codes "100");
  currency = some (codes "THB");
  tax_rate = none;
  tax_mode = some (codes "exempt");
  months = some (pos 24);
}

-- 10 dollars, where the tax comes from an override.
abbrev abroad : BudgetCost
abroad = record local {
  domain_id = 2;
  expires_at = some (days 180);
  amount = some (codes "10");
  currency = some (codes "usd");
  tax_mode = some (codes "unknown");
  months = some (pos 12);
}

abbrev unpriced : BudgetCost
unpriced = record local { domain_id = 3; amount = none }

abbrev ledger : BudgetTables
ledger = record {
  costs = local ∷ abroad ∷ unpriced ∷ [];
  override_rows =
      record { domain_id = 2; field = codes "tax_rate"; value = some (codes "0.1") } ∷ [];
  rate_rows =
      λ currency. (codes "USD", record { rate = codes "30"; observed_at = some (days 99) }) ∷ [];
  purchases = (codes "5", codes "EUR") ∷ [];
  now = days 100;
  max_age = days 7;
  year = λ time. 2026;
  parse_date = λ text. none;
}

-- The totals of a summary that was returned, and whether it is complete.
abbrev totals : Outcome Summary → Option (Text × Text × Text × Bool × List String)
totals (failed e) = none
totals (ok s) =
    some (s.total_renewal_cost, s.estimated_tax, s.total_annual_budget, s.complete, s.warnings)

sample_lem :
    totals (budget_summary ledger (codes " thb"))
    ≡ some (
      codes "430.000000",
      codes "30.000000",
      codes "380.000000",
      false,
      "PURCHASE_TOTAL_INCOMPLETE" ∷ [],
    )
unfolding budget_summary summary_of purchase_total count_costs count_cost count_input
    count_calculated count_converted count_known convert_ignoring cost_input touch
    applicable_windows same_window WindowName-discrete convert_for_summary usable_rate is_outdated
    rate_of latest_rates overridden override active_overrides calculate calculate_mode
    calculate_exempt calculate_taxed parse_checked parse_decimal trim read_digits lower upper
    byte_length float_string rounded shown padded add sub mul quo ◌+ℤ◌ ◌-ℤ◌ ◌*ℤ◌
sample_lem = refl

thb : byte_length (normalize_currency (codes "thb")) ≡ 3
unfolding upper trim byte_length
thb = refl

abbrev small : Summary
small = (budget_summary-IsAccounted ledger (codes "thb") thb).0

small_lem : budget_summary ledger (codes "thb") ≡ ok small
small_lem = (budget_summary-IsAccounted ledger (codes "thb") thb).1

budget_summary-IsAccounted_example :
    (s : Summary) × (budget_summary ledger (codes "thb") ≡ ok s)
    × IsAccounted
        (books_of ledger (normalize_currency (codes "thb")))
        (costs_of ledger)
        ((codes "5", codes "EUR") ∷ [])
        s
budget_summary-IsAccounted_example = budget_summary-IsAccounted ledger (codes "thb") thb

budget_summary-windows_example :
    ((small.windows next_30_days).0.domain_count
      ≡ expiring ledger.year ledger.now next_30_days (costs_of ledger))
    × ((small.windows next_30_days).0.known_renewals + (small.windows next_30_days).0.unknown_costs
        ≤ (small.windows next_30_days).0.domain_count)
budget_summary-windows_example =
    budget_summary-windows ledger (codes "thb") small next_30_days small_lem

-- The domains 1 and 3 expire within 30 days.
expiring_soon : expiring ledger.year ledger.now next_30_days (costs_of ledger) ≡ 2
unfolding overridden override active_overrides ◌+ℤ◌
expiring_soon = refl
