-- ===== src/Monitor/Complete/Manual.antt =====
-- What a manual run, or one without a conclusive observation, does to the stored state
-- (internal/monitor/complete.go, internal/classification/state.go).
use domains_checker_infomati.Base.{◌≤◌, ◌≡◌, refl, ◌∷◌, none, true, false, arith, is_some}
use domains_checker_infomati.Netcheck.{Code, code_text}
use domains_checker_infomati.Classification.Effective.{advance}
use domains_checker_infomati.Monitor.Incidents.{apply_incident, nullable_string}
use domains_checker_infomati.Monitor.Complete.{
  Config, Trigger, RunStatus, Store, complete_run, load, write_back, persist_history, Job, after,
}
use domains_checker_infomati.Monitor.Complete.Aligned.{Aligned}

nullable_string-blank : nullable_string "" ≡ none
unfolding nullable_string
nullable_string-blank = refl

no_code-blank : code_text Code.no_code ≡ ""
unfolding code_text
no_code-blank = refl

-- A completed manual run leaves the availability, the streaks, the incidents and the history alone,
-- adds its decision to the results, and erases the failure stage and the error code of the domain,
-- also while the domain stays unavailable.
pub manual_run :
    (c : Config) (j : Job) (s : Store)
    → j.run.trigger ≡ Trigger.manual
    → j.run.status ≡ RunStatus.running
    → let t = after c j s in
      (t.domain.availability ≡ s.domain.availability)
      × (t.domain.failure_streak ≡ s.domain.failure_streak)
      × (t.domain.success_streak ≡ s.domain.success_streak)
      × (t.incidents ≡ s.incidents)
      × (t.history ≡ s.history)
      × (t.results ≡ (j.run.id, j.decision) ∷ s.results)
      × (t.domain.failure_stage ≡ none)
      × (t.domain.error_code ≡ none)
unfolding after complete_run advance write_back persist_history
manual_run c j s m r = ground (arith, nullable_string-blank, no_code-blank)

-- Whenever a completion closes an incident under a closing threshold of at least 2, the effective
-- state of that completion does not have its flag of a closed incident set.
pub closed_flag_unset :
    (c : Config) (j : Job) (s : Store)
    → 2 ≤ c.incident_close_success
    → Aligned s
    → is_some s.incidents.active ≡ true
    → (after c j s).incidents.active ≡ none
    → (advance (load c s.domain j.run.trigger j.decision)).closed_incident ≡ false
unfolding after complete_run advance apply_incident
closed_flag_unset c j s two a h closed = ground arith
