-- ===== src/Finance/Decimal/Printing.antt =====
-- A printed decimal reads back as its rounded value (internal/finance/decimal.go).
use domains_checker_infomati.Base.{
  ℕ, zero, suc, ◌+◌, ◌-◌, ◌*◌, ◌/◌, ◌%◌, ◌^◌, ◌≤◌, ◌<◌, [], ◌∷◌, ◌++◌, Option, none, some, Bool,
  true, false, not, ◌≡◌, refl, sym, ap, subst, ◌∙◌, if◌then◌else◌, ltb, length, length-append,
  arith, All, Bool-cases, inl, inr,
}
use mathlib.Core.Bool.{true≢false}
use native.Mathlib.Nat.{pow-suc, mul_assoc}
use domains_checker_infomati.Base.Int.{pos_part, neg_part}
use domains_checker_infomati.Base.Text.{Text, split, is_empty, contains, is_space}
use domains_checker_infomati.Base.Trim.{trim_plain}
use domains_checker_infomati.Finance.Decimal.Rounding.{IsNearest, rounded_lem}
use domains_checker_infomati.Base.Digits.{is_digit, read_digits}
use domains_checker_infomati.Base.Outcome.{ok}
use domains_checker_infomati.Finance.Decimal.{
  Decimal, unsigned, signed, parse_decimal, is_negative, padded, shown, rounded, float_string,
}

abbrev pub Digit : ℕ → Type 0
Digit c = (b'0' ≤ c) × (c ≤ b'9')

All-append : (xs ys : Text) → All Digit xs → All Digit ys → All Digit (xs ++ ys)
All-append [] ys h k = k
All-append (x ∷ xs) ys h k = (h.0, All-append xs ys h.1 k)

padded-Digit : (k n : ℕ) → All Digit (padded k n)
unfolding padded
padded-Digit zero n = tt
padded-Digit (suc k) n =
    All-append (padded k (n / 10)) _ (padded-Digit k (n / 10)) (omega arith, tt)

shown-Digit : (fuel n : ℕ) → All Digit (shown fuel n)
unfolding shown
shown-Digit zero n = tt
shown-Digit (suc fuel) n = elim (Bool-cases (ltb n 10)) [
  | inl small ↦ rw (small, shown) (ground arith, tt)
  | inr large ↦
      rw (large, shown)
        (All-append (shown fuel (n / 10)) _ (shown-Digit fuel (n / 10)) (omega arith, tt))
]

length-padded : (k n : ℕ) → length (padded k n) ≡ k
unfolding padded
length-padded zero n = refl
length-padded (suc k) n =
    omega
      (arith, length-append (padded k (n / 10)) ((b'0' + n % 10) ∷ []), length-padded k (n / 10))

snoc-nonempty : (xs : Text) (c : ℕ) → is_empty (xs ++ c ∷ []) ≡ false
snoc-nonempty [] c = refl
snoc-nonempty (x ∷ xs) c = refl

padded-nonempty : (k n : ℕ) → 1 ≤ k → is_empty (padded k n) ≡ false
unfolding padded
padded-nonempty zero n h = absurd (omega arith)
padded-nonempty (suc k) n h = snoc-nonempty (padded k (n / 10)) (b'0' + n % 10)

shown-nonempty : (fuel n : ℕ) → is_empty (shown (suc fuel) n) ≡ false
unfolding shown
shown-nonempty fuel n = elim (Bool-cases (ltb n 10)) [
  | inl small ↦ rw (small, shown) refl
  | inr large ↦ rw (large, shown) (snoc-nonempty (shown fuel (n / 10)) (b'0' + n % 10))
]

-- Reading goes on where the first digits end.
abbrev read_more : Option ℕ → Text → Option ℕ
read_more none s = none
read_more (some n) s = read_digits n s

read_digits-append :
    (acc : ℕ) (xs ys : Text) → read_digits acc (xs ++ ys) ≡ read_more (read_digits acc xs) ys
unfolding read_digits
read_digits-append acc [] ys = refl
read_digits-append acc (x ∷ xs) ys =
    ground (arith, read_digits-append (acc * 10 + (x - b'0')) xs ys)

read_one : (acc d : ℕ) → d < 10 → read_digits acc ((b'0' + d) ∷ []) ≡ some (acc * 10 + d)
unfolding read_digits
read_one acc d h = ground arith

shift : (acc k : ℕ) → acc * 10 ^ suc k ≡ acc * 10 ^ k * 10
shift acc k = ap (λ (u : ℕ). acc * u) (pow-suc 10 k) ∙ sym (mul_assoc acc (10 ^ k) 10)

read_digits-padded :
    (k acc n : ℕ) → n < 10 ^ k → read_digits acc (padded k n) ≡ some (acc * 10 ^ k + n)
unfolding padded read_digits
read_digits-padded zero acc n h = ap some (omega arith)
read_digits-padded (suc k) acc n h =
    read_digits-append acc (padded k (n / 10)) ((b'0' + n % 10) ∷ [])
    ∙ ap (λ (o : Option ℕ). read_more o ((b'0' + n % 10) ∷ []))
        (read_digits-padded k acc (n / 10) (omega (arith, pow-suc 10 k)))
    ∙ read_one (acc * 10 ^ k + n / 10) (n % 10) (omega arith)
    ∙ ap some (omega (arith, shift acc k))

read_digits-shown : (fuel n : ℕ) → n < fuel → read_digits 0 (shown fuel n) ≡ some n
unfolding shown
read_digits-shown zero n h = elim h [ ]
read_digits-shown (suc fuel) n h = elim (Bool-cases (ltb n 10)) [
  | inl small ↦ rw (small, shown) (read_one 0 n (ground arith) ∙ ap some (omega arith))
  | inr large ↦
      rw (large, shown)
        (read_digits-append 0 (shown fuel (n / 10)) ((b'0' + n % 10) ∷ [])
          ∙ ap (λ (o : Option ℕ). read_more o ((b'0' + n % 10) ∷ []))
              (read_digits-shown fuel (n / 10) (ground arith))
          ∙ read_one (n / 10) (n % 10) (omega arith)
          ∙ ap some (omega arith))
]

split_digits :
    (digits rest : Text)
    → All Digit digits
    → split b'.' (digits ++ rest) ≡ (digits ++ (split b'.' rest).0, (split b'.' rest).1)
split_digits [] rest h = refl
split_digits (c ∷ s) rest h = let head : Digit c = h.0 in ground (arith, split_digits s rest h.1)

is_digits_lem : (s : Text) → All Digit s → contains (λ c. not (is_digit c)) s ≡ false
is_digits_lem [] h = refl
is_digits_lem (c ∷ s) h = let head : Digit c = h.0 in ground (arith, is_digits_lem s h.1)

spaces_digits :
    (s rest : Text)
    → All Digit s
    → contains is_space rest ≡ false
    → contains is_space (s ++ rest) ≡ false
spaces_digits [] rest h k = k
spaces_digits (c ∷ s) rest h k =
    let head : Digit c = h.0 in ground (arith, spaces_digits s rest h.1 k)

unsigned_digits :
    (s rest : Text) → All Digit s → is_empty s ≡ false → unsigned (s ++ rest) ≡ (false, s ++ rest)
unsigned_digits [] rest h k = absurd (true≢false k)
unsigned_digits (c ∷ s) rest h k = let head : Digit c = h.0 in ground arith

split_last : (digits : Text) → All Digit digits → split b'.' digits ≡ (digits, [])
split_last [] h = refl
split_last (c ∷ s) h = let head : Digit c = h.0 in ground (arith, split_last s h.1)

split_printed :
    (whole part : Text)
    → All Digit whole
    → All Digit part
    → split b'.' (whole ++ b'.' ∷ part) ≡ (whole, part ∷ [])
split_printed [] part h k = rw (split_last part k) refl
split_printed (c ∷ s) part h k =
    let head : Digit c = h.0 in ground (arith, split_printed s part h.1 k)

no_spaces : (s : Text) → All Digit s → contains is_space s ≡ false
no_spaces [] h = refl
no_spaces (c ∷ s) h = let head : Digit c = h.0 in ground (arith, no_spaces s h.1)

-- A sign, digits, a point and digits are parsed.
parse_printed :
    (negative : Bool) (whole part : Text) (value most : ℕ)
    → All Digit whole
    → is_empty whole ≡ false
    → All Digit part
    → is_empty part ≡ false
    → length part ≤ most
    → read_digits 0 (whole ++ part) ≡ some value
    → parse_decimal ((if negative then b'-' ∷ [] else []) ++ (whole ++ b'.' ∷ part)) most
      ≡ ok (record { num = signed negative value; den = 10 ^ length part })
unfolding parse_decimal
parse_printed true whole part value most hw fw hp fp short r =
    let clean : contains is_space (b'-' ∷ (whole ++ b'.' ∷ part)) ≡ false =
      spaces_digits whole (b'.' ∷ part) hw (no_spaces part hp) in
    rw (trim_plain (b'-' ∷ (whole ++ b'.' ∷ part)) clean) (
      rw (split_printed whole part hw hp)
        (ground (arith, is_digits_lem whole hw, is_digits_lem part hp)))
parse_printed false whole part value most hw fw hp fp short r =
    let clean : contains is_space (whole ++ b'.' ∷ part) ≡ false =
      spaces_digits whole (b'.' ∷ part) hw (no_spaces part hp) in
    rw (trim_plain (whole ++ b'.' ∷ part) clean) (
      rw (unsigned_digits whole (b'.' ∷ part) hw fw) (
        rw (split_printed whole part hw hp)
          (ground (arith, is_digits_lem whole hw, is_digits_lem part hp))))

-- A printed decimal is read back as its nearest value: `ParseDecimal` accepts what `String` prints at a
-- scale of at least 1 that the policy allows, and gives, with the sign, the number of units that is
-- nearest to the fraction, the larger one at a tie.
pub parse_decimal-float_string :
    (scale most : ℕ) (d : Decimal)
    → 1 ≤ scale
    → scale ≤ most
    → 0 < d.den
    → (value : ℕ) × IsNearest (10 ^ scale) (pos_part d.num + neg_part d.num) d.den value
      × (parse_decimal (float_string scale d) most
          ≡ ok (record { num = signed (is_negative d) value; den = 10 ^ scale }))
unfolding float_string
parse_decimal-float_string scale most d ps fits pd =
    let n = pos_part d.num + neg_part d.num in
    let whole = (rounded scale n d.den).0 in
    let part = (rounded scale n d.den).1 in
    let (below, near) = rounded_lem scale n d.den pd in
    (
      whole * 10 ^ scale + part,
      near,
      subst
          (λ (k : ℕ).
            parse_decimal (float_string scale d) most
            ≡ ok
                (record { num = signed (is_negative d) (whole * 10 ^ scale + part); den = 10 ^ k }))
          (length-padded scale part)
          (parse_printed (is_negative d) (shown (suc whole) whole) (padded scale part)
            (whole * 10 ^ scale + part) most (shown-Digit (suc whole) whole)
            (shown-nonempty whole whole) (padded-Digit scale part) (padded-nonempty scale part ps)
            (omega (arith, length-padded scale part))
            (read_digits-append 0 (shown (suc whole) whole) (padded scale part)
              ∙ ap (λ (o : Option ℕ). read_more o (padded scale part))
                  (read_digits-shown (suc whole) whole (omega arith))
              ∙ read_digits-padded scale whole part below)),
    )
