-- ===== src/Monitor/Complete/Aligned.antt =====
-- The effective state of a domain and its incidents stay in step, whatever runs complete
-- (internal/monitor/complete.go, internal/classification/state.go).
use domains_checker_infomati.Base.{
  ℕ, ◌+◌, ◌≤◌, ◌≡◌, List, [], ◌∷◌, Option, none, some, Bool, true, false, arith, is_some, length,
}
use domains_checker_infomati.Status.{is_unavailable}
use domains_checker_infomati.Classification.Effective.{advance}
use domains_checker_infomati.Classification.Effective.Steps.{is_failure}
use domains_checker_infomati.Monitor.Incidents.{
  Ledger, EventType, IncidentEvent, Incident, apply_incident,
}
use domains_checker_infomati.Monitor.Complete.{Config, Store, complete_run, Job, after, play}

-- Thresholds of at least 1, as `config.Load` demands.
pub record IsSane (c : Config) : Type 0 where
  pub opens : 1 ≤ c.incident_open_failures
  pub closes : 1 ≤ c.incident_close_success

pub record Aligned (s : Store) : Type 0 where
  pub outage : is_unavailable s.domain.availability ≡ true → is_some s.incidents.active ≡ true
  pub ongoing : is_some s.incidents.active ≡ true → is_failure s.domain.availability ≡ true
  pub quiet : is_unavailable s.domain.availability ≡ true → s.domain.success_streak ≡ 0

pub after-Aligned :
    (c : Config) (j : Job) (s : Store) → IsSane c → Aligned s → Aligned (after c j s)
unfolding after complete_run advance apply_incident
after-Aligned c j s v a = ground arith

-- Whatever runs complete, in whatever order: an unavailable domain has an active incident, a domain
-- with an active incident is degraded or unavailable, and an unavailable domain has no success to
-- its credit. This holds after every list of jobs from a store where it holds, for thresholds of at
-- least 1.
pub play-Aligned :
    (c : Config) (js : List Job) (s : Store) → IsSane c → Aligned s → Aligned (play c js s)
unfolding play
play-Aligned c [] s v a = a
play-Aligned c (j ∷ js) s v a = play-Aligned c js (after c j s) v (after-Aligned c j s v a)

-- How many events of a type the ledger holds.
abbrev pub is_opened : EventType → Bool
is_opened EventType.opened = true
is_opened _ = false

abbrev pub is_closed : EventType → Bool
is_closed EventType.closed = true
is_closed _ = false

abbrev pub count_events : (EventType → Bool) → List IncidentEvent → ℕ
count_events p [] = 0
count_events p (e ∷ es) = elim (p e.event_type) [ true ↦ 1 | false ↦ 0 ] + count_events p es

abbrev pub count_active : Option Incident → ℕ
count_active none = 0
count_active (some i) = 1

-- The events account for the incidents.
pub record Balanced (l : Ledger) : Type 0 where
  pub openings : count_events is_opened l.events ≡ length l.closed + count_active l.active
  pub closings : count_events is_closed l.events ≡ length l.closed
