-- ===== src/Finance/Summary/Count.antt =====
-- internal/finance/summary.go: `BudgetSummary`. The dereference of a nil pointer, and a sum with the
-- decimal that has no value, is the failure `nil_pointer`.
use domains_checker_infomati.Base.{
  ℕ, suc, ◌+◌, String, List, [], ◌∷◌, ◌++◌, Option, none, some, Bool, true, false, not, ◌&&◌,
  if◌then◌else◌, ◌==◌, map, ltb,
}
use domains_checker_infomati.Base.Int.{ℤ}
use domains_checker_infomati.Base.Text.{Text, byte_length}
use domains_checker_infomati.Base.Outcome.{Outcome, ok, failed, require, reject, ◌>>=◌, ◌>>◌}
use domains_checker_infomati.Finance.Decimal.{Decimal, add, from_int, float_string}
use domains_checker_infomati.Finance.Engine.{CostInput, CostResult, calculate}
use domains_checker_infomati.Finance.Summary.Books.{
  BudgetCost, FxRate, OverrideRow, Books, active_overrides, overridden, latest_rates,
  convert_for_summary, normalize_currency,
}
use domains_checker_infomati.Finance.Summary.Windows.{
  WindowName, BudgetWindow, applicable_windows, touch,
}

-- The set of warnings.
pub record Warned : Type 0 where
  pub tax_policy : Bool
  pub fx_rate : Bool
  pub invalid_cost : Bool
  pub purchase : Bool

-- The variables of the loop over the costs.
pub record Tally : Type 0 where
  pub unknown_cost_count : ℕ
  pub unknown_tax_count : ℕ
  pub fx_incomplete_count : ℕ
  pub windows : WindowName → BudgetWindow
  pub window_totals : WindowName → Decimal
  pub renewal_total : Decimal
  pub tax_total : Decimal
  pub annual_total : Decimal
  pub warned : Warned

abbrev pub nil_pointer : String
nil_pointer = "invalid memory address or nil pointer dereference"

abbrev pub one_domain : BudgetWindow → BudgetWindow
one_domain w = record w { domain_count = suc w.domain_count }

abbrev pub one_unknown : BudgetWindow → BudgetWindow
one_unknown w = record w { unknown_costs = suc w.unknown_costs }

abbrev pub one_known : BudgetWindow → BudgetWindow
one_known w = record w { known_renewals = suc w.known_renewals }

-- The input of the calculation, where the record of the cost is complete.
unfoldable pub cost_input : BudgetCost → Option CostInput
cost_input c = elim (c.amount) [
  | none ↦ none
  | some amount ↦ elim (c.currency) [
    | none ↦ none
    | some currency ↦ elim (c.tax_mode) [
      | none ↦ none
      | some mode ↦ elim (c.months) [
        | none ↦ none
        | some months ↦ some (record {
          amount = amount;
          currency = currency;
          tax_rate = c.tax_rate;
          tax_mode = mode;
          billing_cycle_months = months;
        })
      ]
    ]
  ]
]

-- A conversion whose failure the code ignores: the amount is dereferenced, its value is added.
unfoldable pub convert_ignoring : Books → Option Text → Text → Outcome Decimal
convert_ignoring b amount currency = do
  text ← require amount nil_pointer
  require (convert_for_summary b text currency) nil_pointer

-- The sums.
unfoldable pub count_known : List WindowName → Decimal → Decimal → Decimal → Tally → Tally
count_known names cycle tax annual t = record t {
  renewal_total = add t.renewal_total cycle;
  tax_total = add t.tax_total tax;
  annual_total = add t.annual_total annual;
  window_totals = touch (λ total. add total cycle) names t.window_totals;
  windows = touch one_known names t.windows;
}

unfoldable pub count_converted :
    Books → List WindowName → CostResult → Option Decimal → Tally → Outcome Tally
count_converted b names r none t = ok (record t {
  fx_incomplete_count = suc t.fx_incomplete_count;
  warned = record t.warned { fx_rate = true };
})
count_converted b names r (some cycle) t = do
  tax ← convert_ignoring b r.tax_amount r.currency
  annual ← convert_ignoring b r.annual_estimate r.currency
  ok (count_known names cycle tax annual t)

unfoldable pub count_calculated :
    Books → List WindowName → Outcome CostResult → Tally → Outcome Tally
count_calculated b names (failed e) t = ok (record t {
  unknown_cost_count = suc t.unknown_cost_count;
  warned = record t.warned { invalid_cost = true };
})
count_calculated b names (ok r) t =
    if not r.complete
    then ok (record t {
      unknown_tax_count = suc t.unknown_tax_count;
      warned = record t.warned { tax_policy = true };
    })
    else do
      total ← require r.cycle_total nil_pointer
      count_converted b names r (convert_for_summary b total r.currency) t

unfoldable pub count_input : Books → List WindowName → Option CostInput → Tally → Outcome Tally
count_input b names none t = ok (record t {
  unknown_cost_count = suc t.unknown_cost_count;
  windows = touch one_unknown names t.windows;
})
count_input b names (some input) t = count_calculated b names (calculate input) t

-- The body of the loop.
unfoldable pub count_cost : Books → (ℤ → ℕ) → BudgetCost → Tally → Outcome Tally
count_cost b year c t =
    let names = applicable_windows year b.now c.expires_at in
    count_input b names (cost_input c) (record t { windows = touch one_domain names t.windows })

unfoldable pub count_costs : Books → (ℤ → ℕ) → List BudgetCost → Tally → Outcome Tally
count_costs b year [] t = ok t
count_costs b year (c ∷ cs) t = do next ← count_cost b year c t; count_costs b year cs next

-- `currentPurchaseTotal`: the total, and the number of rows without a conversion.
unfoldable pub purchase_total : Books → List (Text × Text) → Decimal → ℕ → Decimal × ℕ
purchase_total b [] total incomplete = (total, incomplete)
purchase_total b ((amount, currency) ∷ rows) total incomplete =
    elim (convert_for_summary b amount currency) [
      | none ↦ purchase_total b rows total (suc incomplete)
      | some converted ↦ purchase_total b rows (add total converted) incomplete
    ]

pub record Summary : Type 0 where
  pub reporting_currency : Text
  pub generated_at : ℤ
  pub total_current_domain_cost : Text
  pub total_renewal_cost : Text
  pub estimated_tax : Text
  pub total_annual_budget : Text
  pub complete : Bool
  pub unknown_cost_count : ℕ
  pub unknown_tax_count : ℕ
  pub fx_incomplete_count : ℕ
  pub warnings : List String
  pub windows : WindowName → BudgetWindow × Text

abbrev warning : Bool → String → List String
warning present code = if present then code ∷ [] else []

abbrev listed_warnings : Warned → List String
listed_warnings w =
    warning w.tax_policy "TAX_POLICY_UNKNOWN"
    ++ (warning w.fx_rate "FX_RATE_MISSING_OR_STALE"
        ++ (warning w.invalid_cost "INVALID_COST_RECORD"
            ++ warning w.purchase "PURCHASE_TOTAL_INCOMPLETE"))

-- The summary that the sums give.
unfoldable pub summary_of : Books → Tally → Decimal × ℕ → Summary
summary_of b t (current, incomplete) =
    let fx = t.fx_incomplete_count + incomplete in
    record {
      reporting_currency = b.reporting_currency;
      generated_at = b.now;
      total_current_domain_cost = float_string 6 current;
      total_renewal_cost = float_string 6 t.renewal_total;
      estimated_tax = float_string 6 t.tax_total;
      total_annual_budget = float_string 6 t.annual_total;
      complete = t.unknown_cost_count == 0 && t.unknown_tax_count == 0 && fx == 0;
      unknown_cost_count = t.unknown_cost_count;
      unknown_tax_count = t.unknown_tax_count;
      fx_incomplete_count = fx;
      warnings = listed_warnings (record t.warned { purchase = ltb 0 incomplete });
      windows = λ name. (t.windows name, float_string 6 (t.window_totals name));
    }

abbrev pub empty_tally : Tally
empty_tally = record {
  unknown_cost_count = 0;
  unknown_tax_count = 0;
  fx_incomplete_count = 0;
  windows = λ name. record { domain_count = 0; known_renewals = 0; unknown_costs = 0 };
  window_totals = λ name. from_int 0;
  renewal_total = from_int 0;
  tax_total = from_int 0;
  annual_total = from_int 0;
  warned = record { tax_policy = false; fx_rate = false; invalid_cost = false; purchase = false };
}

-- What the queries return, the clock, the calendar and the maximal age of a rate.
pub record BudgetTables : Type 0 where
  pub costs : List BudgetCost
  pub override_rows : List OverrideRow
  pub rate_rows : Text → List (Text × FxRate)
  pub purchases : List (Text × Text)
  pub now : ℤ
  pub max_age : ℤ
  pub year : ℤ → ℕ
  pub parse_date : Text → Option ℤ

abbrev pub books_of : BudgetTables → Text → Books
books_of l currency = record {
  reporting_currency = currency;
  rates = latest_rates (l.rate_rows currency) [];
  now = l.now;
  max_age = l.max_age;
}

abbrev pub costs_of : BudgetTables → List BudgetCost
costs_of l = map (overridden l.parse_date (active_overrides l.override_rows [])) l.costs

unfoldable pub budget_summary : BudgetTables → Text → Outcome Summary
budget_summary l raw = do
  let currency = normalize_currency raw
  reject (not (byte_length currency == 3)) "reporting_currency"
  let b = books_of l currency
  t ← count_costs b l.year (costs_of l) empty_tally
  ok (summary_of b t (purchase_total b l.purchases (from_int 0) 0))
