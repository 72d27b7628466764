-- ===== src/Finance/Tests.antt =====
-- Costs and conversions of small amounts (internal/finance/decimal.go, engine.go).
use domains_checker_infomati.Base.{ℕ, ◌^◌, [], some, true, ◌≡◌, ◌⊎◌, refl, arith}
use domains_checker_infomati.Base.Int.{ℤ, pos, negsuc, ◌+ℤ◌, ◌-ℤ◌, ◌*ℤ◌}
use domains_checker_infomati.Base.Text.{codes, trim, lower, upper, byte_length}
use domains_checker_infomati.Base.Digits.{read_digits}
use domains_checker_infomati.Base.Outcome.{ok, failed}
use domains_checker_infomati.Finance.Decimal.{
  Decimal, parse_decimal, float_string, rounded, shown, padded, signed, add, sub, mul, quo,
}
use domains_checker_infomati.Finance.Decimal.Rounding.{IsNearest}
use domains_checker_infomati.Finance.Decimal.Printing.{parse_decimal-float_string}
use domains_checker_infomati.Finance.Engine.{
  CostInput, CostResult, calculate, calculate_mode, calculate_taxed, parse_checked, FxInput,
  FxResult, convert, convert_at, is_stale,
}
use domains_checker_infomati.Finance.Engine.Costs.{IsCosted, calculate-IsCosted}
use domains_checker_infomati.Finance.Engine.Rates.{Same, IsFresh, convert-IsFresh}

-- -1/3, printed with two decimals.
abbrev third : Decimal
third = record { num = negsuc 0; den = 3 }

third_shown : float_string 2 third ≡ codes "-0.33"
unfolding float_string rounded shown padded
third_shown = refl

parse_decimal-float_string_example :
    (value : ℕ) × IsNearest (10 ^ 2) 1 3 value
    × (parse_decimal (float_string 2 third) 6
        ≡ ok (record { num = signed true value; den = 10 ^ 2 }))
parse_decimal-float_string_example =
    parse_decimal-float_string 2 6 third (omega arith) (omega arith) (omega arith)

too_fine : parse_decimal (codes "1.2345678") 6 ≡ failed "decimal scale exceeds policy"
unfolding parse_decimal trim read_digits
too_fine = refl

abbrev taxed : CostInput
taxed = record {
  amount = codes "107.00";
  currency = codes " thb";
  tax_rate = some (codes "0.07");
  tax_mode = codes "Inclusive";
  billing_cycle_months = pos 24;
}

abbrev priced : CostResult
priced = record {
  currency = codes "THB";
  cycle_amount = codes "107.000000";
  tax_amount = some (codes "7.000000");
  cycle_total = some (codes "107.000000");
  annual_estimate = some (codes "53.500000");
  billing_cycle_months = 24;
  formula = codes "cycle_total * (12 / 24)";
  complete = true;
  warnings = [];
}

taxed_lem : calculate taxed ≡ ok priced
unfolding calculate calculate_mode calculate_taxed parse_checked parse_decimal trim read_digits
    lower upper byte_length float_string rounded shown padded add sub mul quo ◌+ℤ◌ ◌-ℤ◌ ◌*ℤ◌
taxed_lem = refl

calculate-IsCosted_example : IsCosted priced
calculate-IsCosted_example = calculate-IsCosted taxed taxed_lem

abbrev dollars : FxInput
dollars = record {
  amount = codes "10";
  rate = codes "35.5";
  from_currency = codes "USD";
  to_currency = codes "THB";
  observed_at = some (pos 1000);
  now = pos 2000;
  max_age = pos 5000;
}

abbrev bahts : FxResult
bahts = record {
  original_amount = codes "10.000000";
  original_currency = codes "USD";
  converted_amount = some (codes "355.000000");
  reporting_currency = codes "THB";
  rate = some (codes "35.5000000000");
  rate_observed_at = some (pos 1000);
  complete = true;
  warnings = [];
}

dollars_lem : convert dollars ≡ ok bahts
unfolding convert convert_at is_stale parse_checked parse_decimal trim read_digits upper
    float_string rounded shown padded mul ◌+ℤ◌ ◌-ℤ◌ ◌*ℤ◌
dollars_lem = refl

convert-IsFresh_example :
    Same dollars
    ⊎ ((amount rate : Decimal) × (observed : ℤ) × (parse_decimal (codes "10") 6 ≡ ok amount)
        × IsFresh dollars amount rate observed bahts)
convert-IsFresh_example = convert-IsFresh dollars bahts dollars_lem refl
