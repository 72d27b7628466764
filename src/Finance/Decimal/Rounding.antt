-- ===== src/Finance/Decimal/Rounding.antt =====
-- `FloatString` rounds a fraction to the nearest decimal (internal/finance/decimal.go).
use native.Mathlib.Nat.{
  add-mul, one-mul, mul_assoc, mul_comm, div-add-mod', mod-lt, div-lt_iff_lt-mul, one-le-pow,
  mul-lt-mul_of_pos_right,
}
use domains_checker_infomati.Base.{
  ℕ, ◌+◌, ◌-◌, ◌*◌, ◌/◌, ◌%◌, ◌^◌, ◌≤◌, ◌<◌, Bool, ◌≡◌, refl, sym, ap, subst, ◌∙◌, if◌then◌else◌,
  leb, leb→le, arith, Bool-cases, inl, inr,
}
use domains_checker_infomati.Finance.Decimal.{rounded}

-- `value` decimals of the given unit are the nearest to `n / den`, the larger one at a tie.
abbrev pub IsNearest : ℕ → ℕ → ℕ → ℕ → Type 0
IsNearest unit n den value =
    (2 * (value * den) ≤ 2 * (n * unit) + den)
    × (2 * (n * unit) + den < 2 * (value * den) + 2 * den)

-- The parts of the exact product of the fraction and the unit.
product : (n den unit : ℕ) → n * unit ≡ n / den * unit * den + n % den * unit
product n den unit =
    ap (λ (k : ℕ). k * unit) (sym (div-add-mod' n den))
    ∙ add-mul (n / den * den) (n % den) unit
    ∙ ap (λ (k : ℕ). k + n % den * unit)
        (mul_assoc (n / den) den unit
          ∙ ap (λ (k : ℕ). n / den * k) (mul_comm den unit)
          ∙ sym (mul_assoc (n / den) unit den))

IsNearest-step :
    (whole unit den scaled up n : ℕ)
    → 0 < den
    → n * unit ≡ whole * unit * den + scaled
    → up ≡ (if leb den (scaled % den + scaled % den) then scaled / den + 1 else scaled / den)
    → IsNearest unit n den (whole * unit + up)
IsNearest-step whole unit den scaled up n pd e u =
    elim (Bool-cases (leb den (scaled % den + scaled % den))) [
      | inl above ↦
          let raised : up * den ≡ scaled / den * den + den =
            ap (λ (k : ℕ). k * den)
              (u ∙ ap (λ (b : Bool). if b then scaled / den + 1 else scaled / den) above)
            ∙ add-mul (scaled / den) 1 den
            ∙ ap (λ (k : ℕ). scaled / den * den + k) (one-mul den) in
          omega (
            arith,
            add-mul (whole * unit) up den,
            div-add-mod' scaled den,
            mod-lt scaled pd,
            leb→le den (scaled % den + scaled % den) above,
          )
      | inr below ↦
          let kept : up * den ≡ scaled / den * den =
            ap (λ (k : ℕ). k * den)
              (u ∙ ap (λ (b : Bool). if b then scaled / den + 1 else scaled / den) below) in
          let half : scaled % den + scaled % den < den = ground arith in
          omega (arith, add-mul (whole * unit) up den, div-add-mod' scaled den, mod-lt scaled pd)
    ]

-- The fraction of a unit is below the unit before it is rounded.
part_below : (n den unit : ℕ) → 0 < den → 0 < unit → n % den * unit / den < unit
part_below n den unit pd pu = (div-lt_iff_lt-mul pd).1 (
    subst (λ (k : ℕ). n % den * unit < k) (mul_comm den unit)
      (mul-lt-mul_of_pos_right (mod-lt n pd) pu))

abbrev carried : ℕ → ℕ → ℕ → ℕ × ℕ
carried whole unit up = if leb unit up then (whole + 1, up - unit) else (whole, up)

carry :
    (whole unit up den n : ℕ)
    → up ≤ unit
    → 0 < unit
    → IsNearest unit n den (whole * unit + up)
    → ((carried whole unit up).1 < unit)
      × IsNearest unit n den ((carried whole unit up).0 * unit + (carried whole unit up).1)
carry whole unit up den n most pu near = elim (Bool-cases (leb unit up)) [
  | inl full ↦
      let value : (whole + 1) * unit + (up - unit) ≡ whole * unit + up =
        omega (arith, add-mul whole 1 unit, one-mul unit, leb→le unit up full) in
      rw full (omega (arith, leb→le unit up full), subst (IsNearest unit n den) (sym value) near)
  | inr less ↦ rw less (ground arith, near)
]

-- The whole part and the decimals are those of the nearest decimal, for a positive denominator.
pub rounded_lem :
    (scale n den : ℕ)
    → 0 < den
    → ((rounded scale n den).1 < 10 ^ scale)
      × IsNearest
          (10 ^ scale)
          n
          den
          ((rounded scale n den).0 * 10 ^ scale + (rounded scale n den).1)
unfolding rounded
rounded_lem scale n den pd =
    let unit = 10 ^ scale in
    let scaled = n % den * unit in
    let up = if leb den (scaled % den + scaled % den) then scaled / den + 1 else scaled / den in
    let near = IsNearest-step (n / den) unit den scaled up n pd (product n den unit) refl in
    let pu : 0 < unit = one-le-pow scale 10 (omega arith) in
    let below : scaled / den < unit = part_below n den unit pd pu in
    let most : up ≤ unit = ground arith in carry (n / den) unit up den n most pu near
