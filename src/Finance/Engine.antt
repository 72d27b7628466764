-- ===== src/Finance/Engine.antt =====
-- internal/finance/engine.go: `Calculate` and `Convert`. Times and durations are in nanoseconds; of a
-- time that is the zero time `none` is kept. `Convert` is given the time that it reads as `Now`, which
-- is the clock's where the field is zero.
pub mod Costs
pub mod Rates
use domains_checker_infomati.Base.{
  ℕ, suc, ◌+◌, ◌*◌, String, List, [], ◌∷◌, ◌++◌, Option, none, some, Bool, true, false, not, ◌&&◌,
  ◌||◌, if◌then◌else◌, ◌==◌, leb, ltb,
}
use domains_checker_infomati.Base.Int.{ℤ, pos, ltb_ℤ, leb_ℤ, pos_part, ◌-ℤ◌, ◌+ℤ◌}
use domains_checker_infomati.Base.Text.{
  Text, codes, text_eq, trim, to_lower, to_upper, is_empty, byte_length,
}
use domains_checker_infomati.Base.Outcome.{Outcome, ok, failed, ◌>>=◌, ◌>>◌, reject}
use domains_checker_infomati.Finance.Decimal.{
  Decimal, parse_decimal, from_int, is_negative, is_positive, greater, add, sub, mul, quo,
  float_string, shown,
}

pub record CostInput : Type 0 where
  pub amount : Text
  pub currency : Text
  pub tax_rate : Option Text
  pub tax_mode : Text
  pub billing_cycle_months : ℤ

pub record CostResult : Type 0 where
  pub currency : Text
  pub cycle_amount : Text
  pub tax_amount : Option Text
  pub cycle_total : Option Text
  pub annual_estimate : Option Text
  pub billing_cycle_months : ℕ
  pub formula : Text
  pub complete : Bool
  pub warnings : List String

-- `ParseDecimal` and a test of the value, with one error for both.
unfoldable pub parse_checked : Text → ℕ → (Decimal → Bool) → String → Outcome Decimal
parse_checked raw scale bad message = elim (parse_decimal raw scale) [
  | failed e ↦ failed message
  | ok d ↦ if bad d then failed message else ok d
]

abbrev pub nonzero : Decimal → Bool
nonzero d = is_negative d || is_positive d

-- A rate that is not between 0 and 1.
abbrev pub bad_rate : Decimal → Bool
bad_rate d = is_negative d || greater d (from_int 1)

-- `amount.Mul(12).Quo(months)`.
abbrev pub per_year : Decimal → ℕ → Decimal
per_year total months = quo (mul total (from_int 12)) (from_int months)

abbrev pub complete_result : Decimal → Decimal → ℕ → CostResult → CostResult
complete_result tax total months r = record r {
  tax_amount = some (float_string 6 tax);
  cycle_total = some (float_string 6 total);
  annual_estimate = some (float_string 6 (per_year total months));
  complete = true;
}

-- Mode "exempt".
unfoldable pub calculate_exempt : Decimal → ℕ → Option Text → CostResult → Outcome CostResult
calculate_exempt amount months none r = ok (complete_result (from_int 0) amount months r)
calculate_exempt amount months (some rate) r = do
  zero_rate ← parse_checked rate 10 nonzero "tax_rate must be null or zero when tax_mode is exempt"
  ok (complete_result (from_int 0) amount months r)

-- Modes "exclusive" and "inclusive".
unfoldable pub calculate_taxed : Bool → Decimal → ℕ → Option Text → CostResult → Outcome CostResult
calculate_taxed exclusive amount months none r =
    failed "tax_rate is required for inclusive or exclusive tax"
calculate_taxed exclusive amount months (some raw) r = do
  rate ←
      parse_checked raw 10 bad_rate
        "tax_rate must be between 0 and 1 with at most 10 decimal places"
  let tax = if exclusive then mul amount rate else sub amount (quo amount (add (from_int 1) rate))
  let total = if exclusive then add amount (mul amount rate) else amount
  ok (complete_result tax total months r)

abbrev pub mode_of : Text → Text
mode_of raw = let mode = to_lower (trim raw) in if is_empty mode then codes "unknown" else mode

abbrev pub months_of : ℤ → ℤ
months_of months = if leb_ℤ months (pos 0) && leb_ℤ (pos 0) months then pos 12 else months

abbrev pub started : Text → Decimal → ℕ → CostResult
started currency amount months = record {
  currency = currency;
  cycle_amount = float_string 6 amount;
  tax_amount = none;
  cycle_total = none;
  annual_estimate = none;
  billing_cycle_months = months;
  formula = codes "cycle_total * (12 / " ++ (shown (suc months) months ++ codes ")");
  complete = false;
  warnings = [];
}

-- The part that depends on the tax mode.
unfoldable pub calculate_mode : Text → Decimal → ℕ → Option Text → CostResult → Outcome CostResult
calculate_mode mode amount months tax_rate r =
    if text_eq mode (codes "unknown")
    then elim tax_rate [
      | some rate ↦ failed "tax_rate must be null when tax_mode is unknown"
      | none ↦ ok (record r { warnings = "TAX_POLICY_UNKNOWN" ∷ [] })
    ]
    else if text_eq mode (codes "exempt")
    then calculate_exempt amount months tax_rate r
    else if not (text_eq mode (codes "exclusive")) && not (text_eq mode (codes "inclusive"))
    then failed "tax_mode must be exclusive, inclusive, exempt, or unknown"
    else calculate_taxed (text_eq mode (codes "exclusive")) amount months tax_rate r

unfoldable pub calculate : CostInput → Outcome CostResult
calculate i = do
  amount ←
      parse_checked i.amount 6 is_negative
        "amount must be a non-negative decimal string with at most 6 decimal places"
  let currency = to_upper (trim i.currency)
  reject (not (byte_length currency == 3)) "currency must be a three-letter code"
  let months = months_of i.billing_cycle_months
  reject (ltb_ℤ months (pos 1) || ltb_ℤ (pos 120) months)
      "billing cycle must be between 1 and 120 months"
  calculate_mode (mode_of i.tax_mode) amount (pos_part months) i.tax_rate
      (started currency amount (pos_part months))

pub record FxInput : Type 0 where
  pub amount : Text
  pub rate : Text
  pub from_currency : Text
  pub to_currency : Text
  pub observed_at : Option ℤ
  pub now : ℤ
  pub max_age : ℤ

pub record FxResult : Type 0 where
  pub original_amount : Text
  pub original_currency : Text
  pub converted_amount : Option Text
  pub reporting_currency : Text
  pub rate : Option Text
  pub rate_observed_at : Option ℤ
  pub complete : Bool
  pub warnings : List String

abbrev pub five_minutes : ℕ
five_minutes = 300000000000

-- The observation is missing, too old or from the future.
unfoldable pub is_stale : Option ℤ → ℤ → ℤ → Bool
is_stale none now max_age = true
is_stale (some observed) now max_age =
    leb_ℤ max_age (pos 0)
    || ltb_ℤ max_age (now -ℤ observed)
    || ltb_ℤ (now +ℤ pos five_minutes) observed

unfoldable pub convert_at : Decimal → FxInput → FxResult → FxResult
convert_at amount i r = elim (parse_decimal i.rate 10) [
  | failed e ↦ record r { warnings = "FX_RATE_MISSING" ∷ [] }
  | ok rate ↦
      if not (is_positive rate)
      then record r { warnings = "FX_RATE_MISSING" ∷ [] }
      else if is_stale i.observed_at i.now i.max_age
      then record r { warnings = "FX_RATE_STALE" ∷ [] }
      else record r {
        converted_amount = some (float_string 6 (mul amount rate));
        rate = some (float_string 10 rate);
        rate_observed_at = i.observed_at;
        complete = true;
      }
]

unfoldable pub convert : FxInput → Outcome FxResult
convert i = do
  amount ← parse_checked i.amount 6 is_negative "amount must be a non-negative decimal string"
  let from = to_upper (trim i.from_currency)
  let to = to_upper (trim i.to_currency)
  let r : FxResult = record {
    original_amount = float_string 6 amount;
    original_currency = from;
    converted_amount = none;
    reporting_currency = to;
    rate = none;
    rate_observed_at = none;
    complete = false;
    warnings = [];
  }
  ok (
      if text_eq from to
      then record r { converted_amount = some (float_string 6 amount); complete = true }
      else convert_at amount i r)
