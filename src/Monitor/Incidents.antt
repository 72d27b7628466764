-- ===== src/Monitor/Incidents.antt =====
-- `applyIncident` of internal/monitor/complete.go on one domain's incidents. The unique index
-- `incidents_one_open_per_domain_idx` keeps at most one of them open or acknowledged, which is
-- `active`; the closed ones and the events are listed newest first.
use domains_checker_infomati.Base.{
  ℕ, max, String, List, ◌∷◌, Option, none, some, not, ◌&&◌, ◌||◌, if◌then◌else◌, leb, ltb, str_eq,
}
use domains_checker_infomati.Base.Text.{trim_space}
use domains_checker_infomati.Netcheck.{code_text}
use domains_checker_infomati.Status.{Availability, is_active, is_unavailable}
use domains_checker_infomati.Classification.Decision.{Decision}
use domains_checker_infomati.Classification.Effective.{EffectiveState}

-- `nullableString`: a blank text is stored as NULL.
unfoldable pub nullable_string : String → Option String
unfolding trim_space
nullable_string value =
    let trimmed = trim_space value in if str_eq trimmed "" then none else some trimmed

-- `opened` is the status "open", which is a reserved word here.
pub data IncidentStatus : Type 0 where
  opened acknowledged closed : IncidentStatus

pub data EventType : Type 0 where
  opened failure_observed success_observed closed : EventType

pub record Incident : Type 0 where
  pub id : ℕ
  pub status : IncidentStatus
  pub failure_stage : Option String
  pub error_code : Option String
  pub open_failure_count : ℕ
  pub close_success_count : ℕ
  pub opened_at : ℕ
  pub opened_by_run : ℕ
  pub closed_at : Option ℕ
  pub closed_by_run : Option ℕ

pub record IncidentEvent : Type 0 where
  pub incident : ℕ
  pub event_type : EventType
  pub run : ℕ
  pub streak : ℕ

pub record Ledger : Type 0 where
  pub active : Option Incident
  pub closed : List Incident
  pub events : List IncidentEvent

-- `insertIncidentEvent`.
insert_incident_event : ℕ → EventType → ℕ → ℕ → Ledger → Ledger
insert_incident_event incident event_type run streak l = record l {
  events =
      record { incident = incident; event_type = event_type; run = run; streak = streak }
      ∷ l.events;
}

-- The branch of an observed success on an active incident.
observe_success : ℕ → EffectiveState → ℕ → ℕ → Incident → Ledger → Ledger
unfolding insert_incident_event
observe_success run state close_successes checked_at incident l =
    let counted = record incident { close_success_count = state.success_streak } in
    let seen =
      insert_incident_event incident.id EventType.success_observed run state.success_streak
        (record l { active = some counted }) in
    let ended = record counted {
      status = IncidentStatus.closed;
      closed_at = some checked_at;
      closed_by_run = some run;
    } in
    if is_active state.availability && leb close_successes state.success_streak
    then insert_incident_event incident.id EventType.closed run state.success_streak
        (record seen { active = none; closed = ended ∷ l.closed })
    else seen

-- The branch of an observed failure on an active incident.
observe_failure : ℕ → Decision → EffectiveState → Incident → Ledger → Ledger
unfolding insert_incident_event nullable_string
observe_failure run decision state incident l =
    insert_incident_event incident.id EventType.failure_observed run state.failure_streak
      (record l {
        active = some (record incident {
          open_failure_count = max incident.open_failure_count state.failure_streak;
          failure_stage = nullable_string decision.failure_stage;
          error_code = nullable_string (code_text decision.error_code);
          close_success_count = 0;
        });
      })

-- The insertion of a new incident, under the identifier `fresh`.
open_incident : ℕ → ℕ → Decision → EffectiveState → ℕ → Ledger → Ledger
unfolding insert_incident_event nullable_string
open_incident fresh run decision state checked_at l =
    insert_incident_event fresh EventType.opened run state.failure_streak (record l {
      active = some (record {
        id = fresh;
        status = IncidentStatus.opened;
        failure_stage = nullable_string decision.failure_stage;
        error_code = nullable_string (code_text decision.error_code);
        open_failure_count = state.failure_streak;
        close_success_count = 0;
        opened_at = checked_at;
        opened_by_run = run;
        closed_at = none;
        closed_by_run = none;
      });
    })

-- What is done with no active incident, or on an observation that is no success.
after_success_case : ℕ → ℕ → Decision → EffectiveState → ℕ → ℕ → Option Incident → Ledger → Ledger
unfolding observe_failure open_incident
after_success_case fresh run decision state open_failures checked_at (some incident) l =
    observe_failure run decision state incident l
after_success_case fresh run decision state open_failures checked_at none l =
    if not (is_unavailable state.availability) || ltb state.failure_streak open_failures
    then l
    else open_incident fresh run decision state checked_at l

-- `applyIncident`, by the observed availability.
unfoldable pub apply_incident :
    ℕ → ℕ → Decision → EffectiveState → ℕ → ℕ → ℕ → Availability → Option Incident → Ledger → Ledger
unfolding observe_success after_success_case
apply_incident fresh run decision state open_failures close_successes checked_at Availability.active
      (some incident) l =
    observe_success run state close_successes checked_at incident l
apply_incident fresh run decision state open_failures close_successes checked_at
      Availability.unavailable found l =
    after_success_case fresh run decision state open_failures checked_at found l
apply_incident fresh run decision state open_failures close_successes checked_at
      Availability.degraded found l =
    after_success_case fresh run decision state open_failures checked_at found l
apply_incident fresh run decision state open_failures close_successes checked_at _ _ l = l
