-- ===== src/Finance/Summary/Books.antt =====
-- internal/finance/summary.go: the rows that the summary reads, the overrides and the exchange rates.
-- The rows of the queries are parameters. A map is the list of its entries, the latest assignment first.
use domains_checker_infomati.Base.{
  ℕ, List, [], ◌∷◌, Option, none, some, Bool, true, ◌&&◌, ◌||◌, if◌then◌else◌, ◌==◌,
}
use domains_checker_infomati.Base.Int.{ℤ, pos, ltb_ℤ, ◌-ℤ◌, ◌+ℤ◌}
use domains_checker_infomati.Base.Text.{Text, codes, text_eq, trim, to_upper}
use domains_checker_infomati.Base.Outcome.{ok, failed}
use domains_checker_infomati.Finance.Decimal.{Decimal, parse_decimal, is_positive, mul}
use domains_checker_infomati.Finance.Engine.{five_minutes}

pub record BudgetCost : Type 0 where
  pub domain_id : ℕ
  pub expires_at : Option ℤ
  pub amount : Option Text
  pub currency : Option Text
  pub tax_rate : Option Text
  pub tax_mode : Option Text
  pub months : Option ℤ

-- `none` is the zero time.
pub record FxRate : Type 0 where
  pub rate : Text
  pub observed_at : Option ℤ

-- A row of manual_overrides; `none` is a value that is no JSON string.
pub record OverrideRow : Type 0 where
  pub domain_id : ℕ
  pub field : Text
  pub value : Option Text

abbrev pub normalize_currency : Text → Text
normalize_currency value = to_upper (trim value)

-- The loop of `activeOverrides`.
unfoldable pub active_overrides : List OverrideRow → List OverrideRow → List OverrideRow
active_overrides [] result = result
active_overrides (row ∷ rows) result = elim row.value [
  | none ↦ active_overrides rows result
  | some value ↦ active_overrides rows (row ∷ result)
]

-- `fields[name]` of the overrides of a domain.
unfoldable pub override : List OverrideRow → ℕ → Text → Option Text
override [] domain_id name = none
override (row ∷ rows) domain_id name =
    let rest = override rows domain_id name in
    if row.domain_id == domain_id && text_eq row.field name then row.value else rest

abbrev or_kept {ℓ} : {A : Type ℓ} → Option A → Option A → Option A
or_kept none kept = kept
or_kept (some value) kept = some value

-- The overrides of one domain; `parse_date` is `time.Parse` with the layout 2006-01-02.
unfoldable pub overridden : (Text → Option ℤ) → List OverrideRow → BudgetCost → BudgetCost
overridden parse_date overrides c =
    let price = override overrides c.domain_id (codes "renewal_price") in
    let tax = override overrides c.domain_id (codes "tax_rate") in
    let date = override overrides c.domain_id (codes "expiration_date") in
    record c {
      amount = or_kept price c.amount;
      tax_rate = or_kept tax c.tax_rate;
      tax_mode = elim tax [ none ↦ c.tax_mode | some value ↦ some (codes "exclusive") ];
      expires_at = elim date [
        | none ↦ c.expires_at
        | some value ↦ or_kept (parse_date value) c.expires_at
      ];
    }

-- The loop of `latestRates`.
unfoldable pub latest_rates : List (Text × FxRate) → List (Text × FxRate) → List (Text × FxRate)
latest_rates [] result = result
latest_rates ((currency, rate) ∷ rows) result =
    latest_rates rows ((normalize_currency currency, rate) ∷ result)

unfoldable pub rate_of : List (Text × FxRate) → Text → Option FxRate
rate_of [] currency = none
rate_of ((key, rate) ∷ rates) currency =
    let rest = rate_of rates currency in if text_eq key currency then some rate else rest

-- What does not change during a summary.
pub record Books : Type 0 where
  pub reporting_currency : Text
  pub rates : List (Text × FxRate)
  pub now : ℤ
  pub max_age : ℤ

-- Not observed, too old or from the future.
unfoldable pub is_outdated : Books → FxRate → Bool
is_outdated b r = elim r.observed_at [
  | none ↦ true
  | some observed ↦
      ltb_ℤ b.max_age (b.now -ℤ observed) || ltb_ℤ (b.now +ℤ pos five_minutes) observed
]

-- The rate that an amount of the currency is multiplied with.
unfoldable pub usable_rate : Books → Text → Option Decimal
usable_rate b from = elim (rate_of b.rates from) [
  | none ↦ none
  | some r ↦ if is_outdated b r then none else elim (parse_decimal r.rate 10) [
    | failed e ↦ none
    | ok rate ↦ if is_positive rate then some rate else none
  ]
]

unfoldable pub convert_for_summary : Books → Text → Text → Option Decimal
convert_for_summary b amount currency = elim (parse_decimal amount 6) [
  | failed e ↦ none
  | ok parsed ↦
      let from = normalize_currency currency in
      if text_eq from b.reporting_currency
      then some parsed
      else elim (usable_rate b from) [ none ↦ none | some rate ↦ some (mul parsed rate) ]
]
