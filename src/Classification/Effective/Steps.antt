-- ===== src/Classification/Effective/Steps.antt =====
-- How `Advance` moves the availability and the two streaks, one run at a time
-- (internal/classification/state.go).
use domains_checker_infomati.Base.{ℕ, ◌+◌, ◌≤◌, ◌<◌, ◌≡◌, ◌⊎◌, Bool, true, false, not, ◌&&◌}
use domains_checker_infomati.Status.{Availability, is_unknown}
use domains_checker_infomati.Classification.Effective.{EffectiveInput, or_default}

abbrev pub opens : EffectiveInput → ℕ
opens i = or_default 3 i.open_failures

abbrev pub closes : EffectiveInput → ℕ
closes i = or_default 2 i.close_successes

-- A run that moves the state: it qualifies, and its observation is conclusive.
abbrev pub counts : EffectiveInput → Bool
counts i = i.qualifying && not (is_unknown i.observed.availability)

abbrev pub is_failure : Availability → Bool
is_failure Availability.degraded = true
is_failure Availability.unavailable = true
is_failure _ = false

-- The edges of the availability diagram, with what must hold of the run for each.
pub data Edge (i : EffectiveInput) : Availability → Availability → Type 0 where
  stay :
      {a : Availability}
      → (counts i ≡ false) ⊎ (i.observed.availability ≡ Availability.blank)
      → Edge i a a
  healthy :
      {a : Availability}
      → i.observed.availability ≡ Availability.active
      → (a ≡ Availability.unknown) ⊎ (a ≡ Availability.active)
      → Edge i a Availability.active
  unset :
      i.observed.availability ≡ Availability.active → Edge i Availability.blank Availability.blank
  recover :
      {a : Availability}
      → i.observed.availability ≡ Availability.active
      → is_failure a ≡ true
      → closes i ≤ i.success_streak + 1
      → Edge i a Availability.active
  recovering :
      {a : Availability}
      → i.observed.availability ≡ Availability.active
      → is_failure a ≡ true
      → i.success_streak + 1 < closes i
      → Edge i a Availability.degraded
  degrade :
      {a : Availability}
      → is_failure i.observed.availability ≡ true
      → i.failure_streak + 1 < opens i
      → Edge i a Availability.degraded
  fail :
      {a : Availability}
      → is_failure i.observed.availability ≡ true
      → opens i ≤ i.failure_streak + 1
      → Edge i a Availability.unavailable

ruleset edges = (stay, healthy, unset, recover, recovering, degrade, fail)
