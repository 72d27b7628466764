-- ===== src/Retry/Tests.antt =====
-- Runs of the backoff, and its theorems at a policy of the defaults.
use domains_checker_infomati.Base.{◌≡◌, refl, none, arith}
use domains_checker_infomati.Base.Int.{ℤ, pos, negsuc, ◌≤ℤ◌, ◌+ℤ◌, ◌-ℤ◌, ◌*ℤ◌, int64}
use domains_checker_infomati.Retry.{Policy, normalized, exponent, ceiling, delay}
use domains_checker_infomati.Retry.Delay.{Draws, delay_bounds}

abbrev unset : Policy
unset = record { max_attempts = pos 0; base_delay = pos 0; max_delay = negsuc 4; jitter = none }

third : ceiling unset (pos 3) ≡ pos 400_000_000
unfolding ceiling exponent int64 ◌-ℤ◌ ◌*ℤ◌
third = refl

tenth : ceiling unset (pos 10) ≡ pos 2_000_000_000
unfolding ceiling exponent int64 ◌-ℤ◌ ◌*ℤ◌
tenth = refl

-- A source that always draws 0.
abbrev zero_source : ℤ → ℤ
zero_source n = pos 0

zero_source-Draws : Draws zero_source
unfolding ◌+ℤ◌
zero_source-Draws n h = (omega arith, ground arith)

delay_bounds_example :
    (pos 0 ≤ℤ delay zero_source unset (pos 2))
    × (delay zero_source unset (pos 2) ≤ℤ (normalized unset).max_delay)
unfolding normalized
delay_bounds_example = delay_bounds zero_source unset (pos 2) zero_source-Draws tt (omega arith)
