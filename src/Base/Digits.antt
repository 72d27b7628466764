-- ===== src/Base/Digits.antt =====
-- Decimal digits of a text, as Go's `strconv` reads them.
use Prim.Native.Nat.{ℕ, ◌+◌, ◌-◌, ◌*◌, ◌^◌}
use mathlib.Core.Bool.{Bool, ◌&&◌}
use mathlib.Core.Option.{Option, none, some}
use mathlib.Core.List.{[], ◌∷◌}
use domains_checker_infomati.Base.Tests.{leb, ltb, ◌==◌, if◌then◌else◌}
use domains_checker_infomati.Base.Text.{Text}
use domains_checker_infomati.Base.Int.{ℤ, pos, sub_ℕ}

abbrev pub is_digit : ℕ → Bool
is_digit c = leb b'0' c && leb c b'9'

-- The number that the digits continue.
unfoldable pub read_digits : ℕ → Text → Option ℕ
read_digits acc [] = some acc
read_digits acc (c ∷ s) =
    let rest = read_digits (acc * 10 + (c - b'0')) s in if is_digit c then rest else none

unfoldable pub read_number : Text → Option ℕ
unfolding read_digits
read_number [] = none
read_number (c ∷ s) = read_digits 0 (c ∷ s)

below : ℕ → ℕ → ℤ → Option ℤ
below bound n value = if ltb n bound then some value else none

-- `strconv.Atoi` with a 64-bit int: an optional sign, at least one digit, no overflow.
unfoldable pub atoi : Text → Option ℤ
unfolding read_number below
atoi [] = none
atoi (c ∷ s) =
    if c == b'-'
    then elim (read_number s) [ none ↦ none | some n ↦ below (2 ^ 63 + 1) n (sub_ℕ 0 n) ]
    else if c == b'+'
    then elim (read_number s) [ none ↦ none | some n ↦ below (2 ^ 63) n (pos n) ]
    else elim (read_number (c ∷ s)) [ none ↦ none | some n ↦ below (2 ^ 63) n (pos n) ]
