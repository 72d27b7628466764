-- ===== src/Retry/Delay.antt =====
-- The bounds of the backoff (internal/retry/policy.go).
use native.Mathlib.Nat.{le-div_iff_mul-le, div-lt_iff_lt-mul, pow-le-pow_right, mod-eq_of_lt}
use domains_checker_infomati.Base.{
  ℕ, ◌+◌, ◌*◌, ◌/◌, ◌%◌, ◌^◌, ◌≤◌, ◌<◌, min, ◌≡◌, refl, Option, none, some, arith, leb,
  if◌then◌else◌, Bool-cases, inl, inr, leb→le,
}
use domains_checker_infomati.Base.Int.{
  ℤ, pos, negsuc, pos_part, neg_part, ◌+ℤ◌, ◌-ℤ◌, ◌*ℤ◌, ◌≤ℤ◌, ltb_ℤ, leb_ℤ, quot, int64, int64-pos,
}
use domains_checker_infomati.Retry.{
  Policy, normalized, exponent, ceiling, full_jitter, jitter_of, delay,
}

-- A policy that `Normalized` leaves as it is.
pub record IsNormal (p : Policy) : Type 0 where
  pub attempts : pos 1 ≤ℤ p.max_attempts
  pub base : pos 1 ≤ℤ p.base_delay
  pub most : p.base_delay ≤ℤ p.max_delay

pub normalized-IsNormal : (p : Policy) → IsNormal (normalized p)
unfolding normalized
normalized-IsNormal p = ground arith

normalized-fixed : (p : Policy) → IsNormal p → normalized p ≡ p
unfolding normalized
normalized-fixed p n = ground arith

-- Normalization gives every policy, whatever its fields, at least one attempt and delays with
-- 0 < base <= max, and normalizing again changes nothing.
pub normalized_idem :
    (p : Policy) → IsNormal (normalized p) × (normalized (normalized p) ≡ normalized p)
normalized_idem p = (normalized-IsNormal p, normalized-fixed (normalized p) (normalized-IsNormal p))

exponent-le : (a : ℤ) → exponent a ≤ 30
unfolding exponent ◌-ℤ◌
exponent-le a = ground arith

exponent_mono : (a b : ℤ) → a ≤ℤ b → exponent a ≤ exponent b
unfolding exponent ◌-ℤ◌
exponent_mono a b h = ground arith

factor_fits : (e : ℕ) → e ≤ 30 → 2 ^ e % 2 ^ 64 ≡ 2 ^ e
factor_fits e h = mod-eq_of_lt (omega (arith, pow-le-pow_right {n = 2} (omega arith) h))

factor_pos : (e : ℕ) → 1 ≤ 2 ^ e
factor_pos e = pow-le-pow_right {n = 2} (omega arith) {i = 0} {j = e} (omega arith)

times_pos : (b f : ℕ) → pos b *ℤ pos f ≡ pos (b * f)
unfolding ◌*ℤ◌
times_pos b f = ground arith

-- The computation of the ceiling from the normalized delays and the factor.
abbrev capped : ℤ → ℤ → ℕ → ℤ
capped base most factor =
    let c = if leb_ℤ base (quot most factor) then int64 (base *ℤ pos factor) else most in
    if ltb_ℤ most c then most else c

capped_pos : (b m f : ℕ) → 1 ≤ f → m < 2 ^ 63 → capped (pos b) (pos m) f ≡ pos (min m (b * f))
capped_pos b m f one fits = elim (Bool-cases (leb b (m / f))) [
  | inl small ↦
      let product : b * f ≤ m = (le-div_iff_mul-le {x = b} {y = m} one).0 (leb→le _ _ small) in
      ground (arith, times_pos b f, int64-pos (b * f))
  | inr large ↦
      let product : m < b * f = (div-lt_iff_lt-mul {x = m} {y = b} one).0 (ground arith) in
      ground arith
]

capped_normal :
    (base most : ℤ) (f : ℕ)
    → pos 1 ≤ℤ base
    → base ≤ℤ most
    → 1 ≤ f
    → pos_part most < 2 ^ 63
    → capped base most f ≡ pos (min (pos_part most) (pos_part base * f))
capped_normal (pos b) (pos m) f hb hm one fits = capped_pos b m f one fits
capped_normal (pos b) (negsuc m) f hb hm one fits = absurd (omega arith)
capped_normal (negsuc b) most f hb hm one fits = absurd (omega arith)

pub ceiling-min :
    (p : Policy) (a : ℤ)
    → pos_part (normalized p).max_delay < 2 ^ 63
    → ceiling p a
      ≡ pos (
          min
            (pos_part (normalized p).max_delay)
            (pos_part (normalized p).base_delay * 2 ^ exponent a))
unfolding ceiling
ceiling-min p a fits =
    let n = normalized-IsNormal p in
    rw (factor_fits (exponent a) (exponent-le a)) (
      capped_normal (normalized p).base_delay (normalized p).max_delay (2 ^ exponent a) n.base
        n.most (factor_pos (exponent a)) fits)

-- Later attempts never wait for less: the ceiling is monotone in the number of the attempt, provided
-- the maximal delay fits into int64.
pub ceiling_mono :
    (p : Policy) (a b : ℤ)
    → pos_part (normalized p).max_delay < 2 ^ 63
    → a ≤ℤ b
    → ceiling p a ≤ℤ ceiling p b
ceiling_mono p a b fits h =
    let power = pow-le-pow_right {n = 2} (omega arith) (exponent_mono a b h) in
    rw (ceiling-min p a fits, ceiling-min p b fits) (grind (arith, power))

-- What `rand.Int64N` promises.
abbrev pub Draws : (ℤ → ℤ) → Type 0
Draws rand = (n : ℤ) → pos 1 ≤ℤ n → (pos 0 ≤ℤ rand n) × (rand n +ℤ pos 1 ≤ℤ n)

-- What a jitter of the caller has to promise.
abbrev pub IsJitter : Option (ℤ → ℤ) → Type 0
IsJitter none = Unit
IsJitter (some j) = (m : ℤ) → pos 0 ≤ℤ m → (pos 0 ≤ℤ j m) × (j m ≤ℤ m)

full_jitter_bounds :
    (rand : ℤ → ℤ)
    → Draws rand
    → (m : ℕ) → m + 1 < 2 ^ 63
    → (pos 0 ≤ℤ full_jitter rand (pos m)) × (full_jitter rand (pos m) ≤ℤ pos m)
unfolding full_jitter ◌+ℤ◌
full_jitter_bounds rand d m fits = ground (arith, int64-pos (m + 1), d (pos (m + 1)))

jitter_bounds :
    (rand : ℤ → ℤ) (o : Option (ℤ → ℤ)) (m : ℕ)
    → Draws rand
    → IsJitter o
    → m + 1 < 2 ^ 63
    → (pos 0 ≤ℤ jitter_of rand o (pos m)) × (jitter_of rand o (pos m) ≤ℤ pos m)
jitter_bounds rand none m d i fits = full_jitter_bounds rand d m fits
jitter_bounds rand (some j) m d i fits = i (pos m) (omega arith)

neg_part-of_pos : (a : ℤ) → pos 1 ≤ℤ a → neg_part a ≡ 0
neg_part-of_pos (pos a) h = refl
neg_part-of_pos (negsuc a) h = absurd (omega arith)

-- Every delay is between 0 and the normalized maximal delay, for a random source that draws from the
-- range it is given, a jitter that stays between 0 and its argument, and a maximal delay below the
-- largest int64.
pub delay_bounds :
    (rand : ℤ → ℤ) (p : Policy) (a : ℤ)
    → Draws rand
    → IsJitter p.jitter
    → pos_part (normalized p).max_delay + 1 < 2 ^ 63
    → (pos 0 ≤ℤ delay rand p a) × (delay rand p a ≤ℤ (normalized p).max_delay)
unfolding delay
delay_bounds rand p a d i fits =
    let k =
      min (pos_part (normalized p).max_delay)
        (pos_part (normalized p).base_delay * 2 ^ exponent a) in
    let n = normalized-IsNormal p in
    let positive = neg_part-of_pos (normalized p).max_delay (omega (arith, n.base, n.most)) in
    let bounds = jitter_bounds rand p.jitter k d i (omega arith) in
    rw (ceiling-min p a (omega arith)) (bounds.0, omega (arith, bounds.1, positive))
