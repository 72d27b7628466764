-- ===== src/Finance/Decimal.antt =====
-- internal/finance/decimal.go: decimals as fractions. A `big.Rat` is a numerator and a positive
-- denominator, not reduced: no operation of the package depends on that. Of `Decimal{}` with no value
-- only the error beside it is ever looked at.
pub mod Rounding
pub mod Printing
use domains_checker_infomati.Base.{
  ℕ, zero, suc, ◌+◌, ◌-◌, ◌*◌, ◌/◌, ◌%◌, ◌^◌, String, List, [], ◌∷◌, ◌++◌, Option, none, some, Bool,
  true, false, not, ◌&&◌, ◌||◌, if◌then◌else◌, ◌==◌, leb, ltb, length,
}
use domains_checker_infomati.Base.Int.{
  ℤ, pos, negsuc, pos_part, neg_part, sub_ℕ, ltb_ℤ, ◌+ℤ◌, ◌-ℤ◌, ◌*ℤ◌,
}
use domains_checker_infomati.Base.Text.{Text, trim, split, is_empty, contains}
use domains_checker_infomati.Base.Digits.{is_digit, read_digits}
use domains_checker_infomati.Base.Outcome.{Outcome, ok, failed}

pub record Decimal : Type 0 where
  pub num : ℤ
  pub den : ℕ

-- `[0-9]+`.
abbrev pub is_digits : Text → Bool
is_digits s = not (is_empty s) && not (contains (λ c. not (is_digit c)) s)

-- The sign of a decimal, and what follows it.
abbrev pub unsigned : Text → Bool × Text
unsigned [] = (false, [])
unsigned (c ∷ s) = if c == b'-' then (true, s) else if c == b'+' then (false, s) else (false, c ∷ s)

abbrev pub signed : Bool → ℕ → ℤ
signed negative n = if negative then sub_ℕ 0 n else pos n

-- `SetString`, on the digits before and after the point.
abbrev pub fraction : Bool → Text → Text → Outcome Decimal
fraction negative whole part = elim (read_digits 0 (whole ++ part)) [
  | none ↦ failed "invalid decimal"
  | some n ↦ ok (record { num = signed negative n; den = 10 ^ length part })
]

abbrev pub parse_parts : ℕ → Bool → Text → List Text → Outcome Decimal
parse_parts max_scale negative whole [] =
    if is_digits whole then fraction negative whole [] else failed "must be a plain decimal string"
parse_parts max_scale negative whole (part ∷ []) =
    if is_digits whole && is_digits part
    then if ltb max_scale (length part)
      then failed "decimal scale exceeds policy"
      else fraction negative whole part
    else failed "must be a plain decimal string"
parse_parts max_scale negative whole (part ∷ more ∷ parts) = failed "must be a plain decimal string"

-- `ParseDecimal`: an optional sign, digits, and perhaps a point with digits behind it.
unfoldable pub parse_decimal : Text → ℕ → Outcome Decimal
parse_decimal raw max_scale =
    let (negative, body) = unsigned (trim raw) in
    let (whole, parts) = split b'.' body in parse_parts max_scale negative whole parts

abbrev pub from_int : ℕ → Decimal
from_int n = record { num = pos n; den = 1 }

abbrev pub is_negative : Decimal → Bool
is_negative d = ltb_ℤ d.num (pos 0)

abbrev pub is_positive : Decimal → Bool
is_positive d = ltb_ℤ (pos 0) d.num

unfoldable pub add : Decimal → Decimal → Decimal
add a b = record { num = a.num *ℤ pos b.den +ℤ b.num *ℤ pos a.den; den = a.den * b.den }

unfoldable pub sub : Decimal → Decimal → Decimal
sub a b = record { num = a.num *ℤ pos b.den -ℤ b.num *ℤ pos a.den; den = a.den * b.den }

unfoldable pub mul : Decimal → Decimal → Decimal
mul a b = record { num = a.num *ℤ b.num; den = a.den * b.den }

-- The divisor is never 0 in this package; the sign of the denominator moves to the numerator.
unfoldable pub quo : Decimal → Decimal → Decimal
quo a b = record {
  num = signed (is_negative b) 1 *ℤ a.num *ℤ pos b.den;
  den = a.den * (pos_part b.num + neg_part b.num);
}

-- `Cmp`, as the test for greater.
abbrev pub greater : Decimal → Decimal → Bool
greater a b = ltb_ℤ (b.num *ℤ pos a.den) (a.num *ℤ pos b.den)

-- A digit for each of `k` places.
unfoldable pub padded : ℕ → ℕ → Text
padded zero n = []
padded (suc k) n = padded k (n / 10) ++ (b'0' + n % 10) ∷ []

-- A number without leading zeros; `fuel` above the number is enough.
unfoldable pub shown : ℕ → ℕ → Text
shown zero n = []
shown (suc fuel) n =
    let rest = shown fuel (n / 10) in
    if ltb n 10 then (b'0' + n) ∷ [] else rest ++ (b'0' + n % 10) ∷ []

-- The whole part and the decimals of `FloatString`, rounded half away from zero.
unfoldable pub rounded : ℕ → ℕ → ℕ → ℕ × ℕ
rounded scale n den =
    let unit = 10 ^ scale in
    let scaled = n % den * unit in
    let up = if leb den (scaled % den + scaled % den) then scaled / den + 1 else scaled / den in
    if leb unit up then (n / den + 1, up - unit) else (n / den, up)

-- `String`, for a scale of at least 1: `FloatString` of the fraction.
unfoldable pub float_string : ℕ → Decimal → Text
float_string scale d =
    let n = pos_part d.num + neg_part d.num in
    let (whole, part) = rounded scale n d.den in
    (if is_negative d then b'-' ∷ [] else [])
    ++ (shown (suc whole) whole ++ b'.' ∷ padded scale part)
