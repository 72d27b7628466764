-- ===== src/Finance/Engine/Costs.antt =====
-- What `Calculate` of internal/finance/engine.go returns can be read back by the budget summary.
use native.Mathlib.Nat.{one-le-pow, mul-pos}
use domains_checker_infomati.Base.{
  ℕ, ◌+◌, ◌≤◌, ◌<◌, String, List, [], ◌∷◌, ◌++◌, Option, none, some, Bool, true, false, ◌≡◌, refl,
  sym, subst, arith, length, Option-cases, inl, inr, if◌then◌else◌,
}
use domains_checker_infomati.Base.Int.{pos_part, neg_part, ◌+ℤ◌, ◌*ℤ◌}
use domains_checker_infomati.Base.Text.{Text, split, trim, to_upper, byte_length}
use domains_checker_infomati.Base.Digits.{read_digits}
use domains_checker_infomati.Base.Outcome.{
  Outcome, ok, failed, Ensures, ok-Ensures, >>=-Ensures, bind_result,
}
use domains_checker_infomati.Finance.Decimal.{
  Decimal, parse_decimal, parse_parts, fraction, unsigned, from_int, is_negative, add, sub, mul,
  quo, float_string,
}
use domains_checker_infomati.Finance.Decimal.Printing.{parse_decimal-float_string}
use domains_checker_infomati.Finance.Engine.{
  CostInput, CostResult, parse_checked, bad_rate, nonzero, per_year, complete_result,
  calculate_exempt, calculate_taxed, calculate_mode, calculate, started, months_of, mode_of,
}

abbrev Proper : Decimal → Type 0
Proper d = 0 < d.den

-- A text that `ParseDecimal` accepts with six decimals.
abbrev pub Readable : Option Text → Type 0
Readable none = ⊥
Readable (some t) = (d : Decimal) × (parse_decimal t 6 ≡ ok d)

fraction-Proper :
    (negative : Bool) (whole part : Text) → Ensures Proper (fraction negative whole part)
fraction-Proper negative whole part = elim (Option-cases (read_digits 0 (whole ++ part))) [
  | inl e ↦ rw (e, Ensures) tt
  | inr (n, e) ↦ rw (e, Ensures) (one-le-pow (length part) 10 (omega arith))
]

parse_parts-Proper :
    (most : ℕ) (negative : Bool) (whole : Text) (parts : List Text)
    → Ensures Proper (parse_parts most negative whole parts)
parse_parts-Proper most negative whole [] = ground (arith, fraction-Proper negative whole [])
parse_parts-Proper most negative whole (part ∷ []) =
    ground (arith, fraction-Proper negative whole part)
parse_parts-Proper most negative whole (part ∷ more ∷ parts) = tt

parse_decimal-Proper : (raw : Text) (most : ℕ) → Ensures Proper (parse_decimal raw most)
unfolding parse_decimal
parse_decimal-Proper raw most =
    let body = unsigned (trim raw) in
    parse_parts-Proper most body.0 (split b'.' body.1).0 (split b'.' body.1).1

parse_checked-Proper :
    (raw : Text) (scale : ℕ) (bad : Decimal → Bool) (message : String)
    → Ensures (λ d. Proper d × (bad d ≡ false)) (parse_checked raw scale bad message)
unfolding parse_checked
parse_checked-Proper raw scale bad message =
    go (parse_decimal raw scale) (parse_decimal-Proper raw scale)
  where
    go :
        (m : Outcome Decimal)
        → Ensures Proper m
        → Ensures
            (λ d. Proper d × (bad d ≡ false))
            (elim m [ failed e ↦ failed message | ok d ↦ if bad d then failed message else ok d ])
    go (failed e) h = tt
    go (ok d) h = ground arith

-- All amounts are there and readable, or none is there.
pub record IsPriced (r : CostResult) : Type 0 where
  pub whole :
      r.complete ≡ true
      → Readable r.tax_amount × Readable r.cycle_total × Readable r.annual_estimate
  pub empty :
      r.complete ≡ false
      → (r.tax_amount ≡ none) × (r.cycle_total ≡ none) × (r.annual_estimate ≡ none)

printed : (d : Decimal) → Proper d → Readable (some (float_string 6 d))
printed d p =
    let (value, near, read) = parse_decimal-float_string 6 6 d (omega arith) (omega arith) p in
    (_, read)

per_year-Proper :
    (total : Decimal) (months : ℕ) → Proper total → 1 ≤ months → Proper (per_year total months)
unfolding quo mul
per_year-Proper total months p h = mul-pos (mul-pos p (omega arith)) (omega arith)

complete-IsPriced :
    (tax total : Decimal) (months : ℕ) (r : CostResult)
    → Proper tax
    → Proper total
    → 1 ≤ months
    → IsPriced (complete_result tax total months r)
complete-IsPriced tax total months r pt pl h = record {
  whole = λ e. (
    printed tax pt,
    printed total pl,
    printed (per_year total months) (per_year-Proper total months pl h),
  );
  empty = λ e. cc;
}

divisor_positive :
    (rate : Decimal)
    → Proper rate
    → is_negative rate ≡ false
    → 0 < pos_part (add (from_int 1) rate).num + neg_part (add (from_int 1) rate).num
unfolding add ◌+ℤ◌ ◌*ℤ◌
divisor_positive rate p h = ground arith

tax-Proper :
    (exclusive : Bool) (amount rate : Decimal)
    → Proper amount
    → Proper rate
    → is_negative rate ≡ false
    → Proper
        (if exclusive then mul amount rate else sub amount (quo amount (add (from_int 1) rate)))
unfolding mul sub quo
tax-Proper true amount rate p q h = mul-pos p q
tax-Proper false amount rate p q h = mul-pos p (mul-pos p (divisor_positive rate q h))

total-Proper :
    (exclusive : Bool) (amount rate : Decimal)
    → Proper amount
    → Proper rate
    → Proper (if exclusive then add amount (mul amount rate) else amount)
unfolding add mul
total-Proper true amount rate p q = mul-pos p (mul-pos p q)
total-Proper false amount rate p q = p

-- Nothing is there yet.
abbrev IsBlank : CostResult → Type 0
IsBlank r =
    (r.complete ≡ false)
    × (r.tax_amount ≡ none)
    × (r.cycle_total ≡ none)
    × (r.annual_estimate ≡ none)

unknown-IsPriced :
    (r : CostResult) (ws : List String) → IsBlank r → IsPriced (record r { warnings = ws })
unknown-IsPriced r ws b = record { whole = λ e. absurd (cc); empty = λ e. ground arith }

module _ (amount : Decimal) (months : ℕ) (r : CostResult) (p : Proper amount) (h : 1 ≤ months) where
  calculate_exempt-IsPriced :
      (rate : Option Text) → Ensures IsPriced (calculate_exempt amount months rate r)
  unfolding calculate_exempt
  calculate_exempt-IsPriced none = complete-IsPriced (from_int 0) amount months r (omega arith) p h
  calculate_exempt-IsPriced (some raw) =
      >>=-Ensures (λ d. Proper d × (nonzero d ≡ false)) IsPriced
        (parse_checked raw 10 nonzero "tax_rate must be null or zero when tax_mode is exempt") _
        (parse_checked-Proper raw 10 nonzero _)
        (λ d q. complete-IsPriced (from_int 0) amount months r (omega arith) p h)

  calculate_taxed-IsPriced :
      (exclusive : Bool) (rate : Option Text)
      → Ensures IsPriced (calculate_taxed exclusive amount months rate r)
  unfolding calculate_taxed
  calculate_taxed-IsPriced exclusive none = tt
  calculate_taxed-IsPriced exclusive (some raw) =
      >>=-Ensures (λ d. Proper d × (bad_rate d ≡ false)) IsPriced
        (parse_checked raw 10 bad_rate
          "tax_rate must be between 0 and 1 with at most 10 decimal places")
        _ (parse_checked-Proper raw 10 bad_rate _)
        (λ rate q.
          complete-IsPriced _ _ months r (tax-Proper exclusive amount rate p q.0 (ground arith))
            (total-Proper exclusive amount rate p q.0) h)

  calculate_mode-IsPriced :
      (mode : Text) (rate : Option Text)
      → IsBlank r
      → Ensures IsPriced (calculate_mode mode amount months rate r)
  unfolding calculate_mode
  calculate_mode-IsPriced mode none b = ground (
    arith,
    calculate_exempt-IsPriced none,
    calculate_taxed-IsPriced true none,
    calculate_taxed-IsPriced false none,
    unknown-IsPriced r ("TAX_POLICY_UNKNOWN" ∷ []) b,
  )
  calculate_mode-IsPriced mode (some raw) b = ground (
    arith,
    calculate_exempt-IsPriced (some raw),
    calculate_taxed-IsPriced true (some raw),
    calculate_taxed-IsPriced false (some raw),
  )

-- What the caller of `Calculate` can rely on.
pub record IsCosted (r : CostResult) : Type 0 where
  pub priced : IsPriced r
  pub amount : Readable (some r.cycle_amount)
  pub months : (1 ≤ r.billing_cycle_months) × (r.billing_cycle_months ≤ 120)
  pub code : byte_length r.currency ≡ 3

-- Fields that the tax mode does not touch.
abbrev Frame : CostResult → CostResult → Type 0
Frame s r =
    (r.cycle_amount ≡ s.cycle_amount)
    × (r.billing_cycle_months ≡ s.billing_cycle_months)
    × (r.currency ≡ s.currency)

calculate_mode-Frame :
    (mode : Text) (amount : Decimal) (months : ℕ) (rate : Option Text) (s : CostResult)
    → Ensures (Frame s) (calculate_mode mode amount months rate s)
unfolding calculate_mode calculate_exempt calculate_taxed
calculate_mode-Frame mode amount months none s = ground arith
calculate_mode-Frame mode amount months (some raw) s = ground arith

-- Whenever `Calculate` succeeds, its amounts are all present, and then `ParseDecimal` reads each of
-- them back at six decimals, or all absent; the cycle amount is always readable, the cycle is of 1 to
-- 120 months and the currency code has three bytes.
pub calculate-IsCosted : (i : CostInput) {r : CostResult} → calculate i ≡ ok r → IsCosted r
unfolding calculate
calculate-IsCosted i {r} h =
    let (amount, parsed, h1) = bind_result (parse_checked i.amount 6 is_negative _) _ h in
    let (proper, positive) =
      ok-Ensures (λ d. Proper d × (is_negative d ≡ false)) _
        (parse_checked-Proper i.amount 6 is_negative _) parsed in
    let currency = to_upper (trim i.currency) in
    let months = pos_part (months_of i.billing_cycle_months) in
    let reached : calculate_mode (mode_of i.tax_mode) amount months i.tax_rate
          (started currency amount months)
        ≡ ok r =
      ground arith in
    let range : (1 ≤ months) × (months ≤ 120) = ground arith in
    let frame =
      ok-Ensures (Frame (started currency amount months)) _
        (calculate_mode-Frame (mode_of i.tax_mode) amount months i.tax_rate
          (started currency amount months))
        reached in
    record {
      priced =
          ok-Ensures IsPriced _
            (calculate_mode-IsPriced amount months (started currency amount months) proper range.0
              (mode_of i.tax_mode) i.tax_rate (refl, refl, refl, refl))
            reached;
      amount = subst (λ t. Readable (some t)) (sym frame.0) (printed amount proper);
      months = ground arith;
      code = ground arith;
    }
