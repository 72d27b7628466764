-- ===== src/Retry.antt =====
-- internal/retry/policy.go: bounded retries with exponential backoff and jitter. Durations are int64
-- nanoseconds.
pub mod Delay
mod Tests
use domains_checker_infomati.Base.{
  ℕ, ◌^◌, ◌%◌, Option, none, some, Bool, true, false, if◌then◌else◌, leb,
}
use domains_checker_infomati.Base.Int.{
  ℤ, pos, negsuc, pos_part, ◌+ℤ◌, ◌-ℤ◌, ◌*ℤ◌, ltb_ℤ, leb_ℤ, quot, int64,
}

-- A jitter that is nil is the full jitter below.
pub record Policy : Type 0 where
  pub max_attempts : ℤ
  pub base_delay : ℤ
  pub max_delay : ℤ
  pub jitter : Option (ℤ → ℤ)

-- `Normalized`, but for the jitter.
unfoldable pub normalized : Policy → Policy
normalized p =
    let base = if leb_ℤ p.base_delay (pos 0) then pos 100_000_000 else p.base_delay in
    let most = if leb_ℤ p.max_delay (pos 0) then pos 2_000_000_000 else p.max_delay in
    record {
      max_attempts = if ltb_ℤ p.max_attempts (pos 1) then pos 3 else p.max_attempts;
      base_delay = base;
      max_delay = if ltb_ℤ most base then base else most;
      jitter = p.jitter;
    }

-- The exponent that `Delay` computes from the number of the attempt.
unfoldable pub exponent : ℤ → ℕ
exponent after_attempt =
    let attempt = if ltb_ℤ after_attempt (pos 1) then pos 1 else after_attempt in
    let e = attempt -ℤ pos 1 in pos_part (if ltb_ℤ (pos 30) e then pos 30 else e)

-- The ceiling that `Delay` hands to the jitter: `uint64(1) << exponent` and the product as the
-- machine computes them.
unfoldable pub ceiling : Policy → ℤ → ℤ
unfolding normalized
ceiling policy after_attempt =
    let p = normalized policy in
    let factor = 2 ^ exponent after_attempt % 2 ^ 64 in
    let c =
      if leb_ℤ p.base_delay (quot p.max_delay factor)
      then int64 (p.base_delay *ℤ pos factor)
      else p.max_delay in
    if ltb_ℤ p.max_delay c then p.max_delay else c

-- `fullJitter`; `rand n` is the draw of `rand.Int64N(n)`.
unfoldable pub full_jitter : (ℤ → ℤ) → ℤ → ℤ
full_jitter rand most = if leb_ℤ most (pos 0) then pos 0 else rand (int64 (most +ℤ pos 1))

abbrev pub jitter_of : (ℤ → ℤ) → Option (ℤ → ℤ) → ℤ → ℤ
jitter_of rand none = full_jitter rand
jitter_of rand (some jitter) = jitter

-- `Delay`.
unfoldable pub delay : (ℤ → ℤ) → Policy → ℤ → ℤ
delay rand policy after_attempt = jitter_of rand policy.jitter (ceiling policy after_attempt)
