-- ===== src/Monitor/Complete/Thresholds.antt =====
-- When incidents open and close: exactly at the configured thresholds
-- (internal/monitor/complete.go, internal/classification/state.go).
use domains_checker_infomati.Base.{
  ℕ, ◌+◌, ◌≤◌, ◌<◌, ◌≡◌, false, List, [], ◌∷◌, none, true, arith, is_some, length, leb, ltb, All,
  Bool-cases, ltb→lt, ltb-false→le, inl, inr,
}
use domains_checker_infomati.Status.{Availability}
use domains_checker_infomati.Classification.Effective.{advance}
use domains_checker_infomati.Classification.Effective.Steps.{is_failure}
use domains_checker_infomati.Monitor.Incidents.{apply_incident}
use domains_checker_infomati.Monitor.Complete.{
  Config, is_manual, RunStatus, Store, complete_run, Job, after, play,
}
use domains_checker_infomati.Monitor.Complete.Aligned.{IsSane, Aligned, after-Aligned}

-- A run that was not started by hand, that still holds its lease and observed a success, or a failure.
pub record IsSuccess (j : Job) : Type 0 where
  pub qualifying : is_manual j.run.trigger ≡ false
  pub leased : j.run.status ≡ RunStatus.running
  pub observed : j.decision.availability ≡ Availability.active

pub record IsOutage (j : Job) : Type 0 where
  pub qualifying : is_manual j.run.trigger ≡ false
  pub leased : j.run.status ≡ RunStatus.running
  pub observed : is_failure j.decision.availability ≡ true

-- No incident, and the streak of failures is below the threshold.
pub record IsCalm (c : Config) (k : ℕ) (s : Store) : Type 0 where
  pub streak : s.domain.failure_streak ≡ k
  pub below : k < c.incident_open_failures
  pub without : s.incidents.active ≡ none

outage_counts :
    (c : Config) (k : ℕ) (j : Job) (s : Store)
    → IsOutage j
    → IsCalm c k s
    → k + 1 < c.incident_open_failures
    → IsCalm c (k + 1) (after c j s)
unfolding after complete_run advance apply_incident
outage_counts c k j s o calm h = ground arith

outage_opens :
    (c : Config) (k : ℕ) (j : Job) (s : Store)
    → IsOutage j
    → IsCalm c k s
    → c.incident_open_failures ≤ k + 1
    → (is_some (after c j s).incidents.active ≡ true)
unfolding after complete_run advance apply_incident
outage_opens c k j s o calm h = ground arith

outage_keeps :
    (c : Config) (j : Job) (s : Store)
    → IsOutage j
    → is_some s.incidents.active ≡ true
    → is_some (after c j s).incidents.active ≡ true
unfolding after complete_run apply_incident
outage_keeps c j s o h = ground arith

play-outage_keeps :
    (c : Config) (js : List Job) (s : Store)
    → All IsOutage js
    → is_some s.incidents.active ≡ true
    → is_some (play c js s).incidents.active ≡ true
unfolding play
play-outage_keeps c [] s o h = h
play-outage_keeps c (j ∷ js) s o h =
    play-outage_keeps c js (after c j s) o.1 (outage_keeps c j s o.0 h)

-- From a streak of `k` failures below the threshold and no incident, a list of failing qualifying
-- runs leaves an incident active exactly if the streak has then reached the threshold.
pub play-outage_threshold :
    (c : Config) (k : ℕ) (js : List Job) (s : Store)
    → All IsOutage js
    → IsCalm c k s
    → is_some (play c js s).incidents.active ≡ leb c.incident_open_failures (k + length js)
unfolding play
play-outage_threshold c k [] s o calm = ground arith
play-outage_threshold c k (j ∷ js) s o calm =
    elim (Bool-cases (ltb (k + 1) c.incident_open_failures)) [
      | inl below ↦
          let calm' = outage_counts c k j s o.0 calm (ltb→lt _ _ below) in
          ground (arith, play-outage_threshold c (k + 1) js (after c j s) o.1 calm')
      | inr reached ↦
          let opened = outage_opens c k j s o.0 calm (ltb-false→le _ _ reached) in
          ground (arith, play-outage_keeps c js (after c j s) o.1 opened)
    ]

-- One success on a domain with an incident.
recovery_step :
    (c : Config) (j : Job) (s : Store)
    → IsSane c
    → Aligned s
    → IsSuccess j
    → is_some s.incidents.active ≡ true
    → s.domain.success_streak + 1 < c.incident_close_success
    → (is_some (after c j s).incidents.active ≡ true)
      × ((after c j s).domain.success_streak ≡ s.domain.success_streak + 1)
unfolding after complete_run advance apply_incident
recovery_step c j s v a w h below = ground arith

recovery_ends :
    (c : Config) (j : Job) (s : Store)
    → IsSane c
    → Aligned s
    → IsSuccess j
    → is_some s.incidents.active ≡ true
    → c.incident_close_success ≤ s.domain.success_streak + 1
    → ((after c j s).incidents.active ≡ none)
      × ((after c j s).domain.availability ≡ Availability.active)
unfolding after complete_run advance apply_incident
recovery_ends c j s v a w h below = ground arith

success_keeps :
    (c : Config) (j : Job) (s : Store)
    → IsSuccess j
    → s.incidents.active ≡ none
    → s.domain.availability ≡ Availability.active
    → ((after c j s).incidents.active ≡ none)
      × ((after c j s).domain.availability ≡ Availability.active)
unfolding after complete_run advance apply_incident
success_keeps c j s w h a = ground arith

play-success_keeps :
    (c : Config) (js : List Job) (s : Store)
    → All IsSuccess js
    → s.incidents.active ≡ none
    → s.domain.availability ≡ Availability.active
    → ((play c js s).incidents.active ≡ none)
      × ((play c js s).domain.availability ≡ Availability.active)
unfolding play
play-success_keeps c [] s w h a = (h, a)
play-success_keeps c (j ∷ js) s w h a =
    let (h', a') = success_keeps c j s w.0 h a in play-success_keeps c js (after c j s) w.1 h' a'

-- An incident ends: from a store where state and incidents are in step and an incident is active, a
-- list of successful qualifying runs, at least one and with the present streak at least as many as
-- the closing threshold, leaves no active incident and an active domain.
pub play-recovers :
    (c : Config) (js : List Job) (s : Store)
    → IsSane c
    → Aligned s
    → All IsSuccess js
    → is_some s.incidents.active ≡ true
    → 1 ≤ length js
    → c.incident_close_success ≤ s.domain.success_streak + length js
    → ((play c js s).incidents.active ≡ none)
      × ((play c js s).domain.availability ≡ Availability.active)
unfolding play
play-recovers c [] s v a w h one enough = absurd (omega arith)
play-recovers c (j ∷ js) s v a w h one enough =
    elim (Bool-cases (ltb (s.domain.success_streak + 1) c.incident_close_success)) [
      | inl below ↦
          let (h', streak) = recovery_step c j s v a w.0 h (ltb→lt _ _ below) in
          play-recovers c js (after c j s) v (after-Aligned c j s v a) w.1 h'
            (omega (arith, ltb→lt _ _ below)) (omega (arith, streak))
      | inr reached ↦
          let (h', active) = recovery_ends c j s v a w.0 h (ltb-false→le _ _ reached) in
          play-success_keeps c js (after c j s) w.1 h' active
    ]
