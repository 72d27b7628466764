-- ===== src/Monitor/Complete.antt =====
-- `CompleteRun` of internal/monitor/complete.go for one domain: its row, its incidents, its history
-- and the recorded decisions. The transaction is the `Option`: `none` rolls back and changes nothing.
pub mod Aligned
pub mod Thresholds
pub mod Manual
use domains_checker_infomati.Base.{
  ℕ, suc, String, List, [], ◌∷◌, ◌++◌, map, Option, none, some, Bool, true, false, not,
  if◌then◌else◌, str_eq,
}
use domains_checker_infomati.Netcheck.{Code, code_text}
use domains_checker_infomati.Status.{
  Availability, DnsStatus, HttpStatus, RedirectStatus, IspStatus, TlsStatus, ContentStatus,
  availability_text, dns_text, http_text, redirect_text, isp_text, tls_text, content_text,
}
use domains_checker_infomati.Classification.Decision.{Decision}
use domains_checker_infomati.Classification.Effective.{EffectiveInput, EffectiveState, advance}
use domains_checker_infomati.Monitor.Incidents.{Ledger, nullable_string, apply_incident}

-- `imported` is the trigger "import", which is a reserved word here.
pub data Trigger : Type 0 where
  scheduled manual imported recheck : Trigger

abbrev pub is_manual : Trigger → Bool
is_manual Trigger.manual = true
is_manual _ = false

pub data RunStatus : Type 0 where
  queued running partial completed failed cancelled : RunStatus

pub record Run : Type 0 where
  pub id : ℕ
  pub trigger : Trigger
  pub status : RunStatus

-- The thresholds of the configuration, which `config.Load` keeps between 1 and 100.
pub record Config : Type 0 where
  pub incident_open_failures : ℕ
  pub incident_close_success : ℕ

-- The monitoring columns of a row of `domains`.
pub record DomainRow : Type 0 where
  pub availability : Availability
  pub dns : DnsStatus
  pub http : HttpStatus
  pub redirect : RedirectStatus
  pub isp : IspStatus
  pub tls : TlsStatus
  pub content : ContentStatus
  pub confidence : ℕ
  pub failure_streak : ℕ
  pub success_streak : ℕ
  pub failure_stage : Option String
  pub error_code : Option String
  pub last_checked_at : Option ℕ

pub record HistoryRow : Type 0 where
  pub dimension : String
  pub previous_value : Option String
  pub current_value : String
  pub confidence : ℕ
  pub reasons : List String
  pub run : ℕ
  pub effective_at : ℕ

pub record Store : Type 0 where
  pub domain : DomainRow
  pub incidents : Ledger
  pub history : List HistoryRow
  pub results : List (ℕ × Decision)

-- The input of `Advance`, read from the locked row.
unfoldable pub load : Config → DomainRow → Trigger → Decision → EffectiveInput
load cfg d trigger decision = record {
  current_availability = d.availability;
  current_dns = d.dns;
  current_http = d.http;
  current_redirect = d.redirect;
  current_isp = d.isp;
  current_tls = d.tls;
  current_content = d.content;
  current_confidence = d.confidence;
  failure_streak = d.failure_streak;
  success_streak = d.success_streak;
  observed = decision;
  qualifying = not (is_manual trigger);
  open_failures = cfg.incident_open_failures;
  close_successes = cfg.incident_close_success;
}

-- The `UPDATE domains` statement.
unfoldable pub write_back : EffectiveState → ℕ → DomainRow
write_back s checked_at = record {
  availability = s.availability;
  dns = s.dns;
  http = s.http;
  redirect = s.redirect;
  isp = s.isp;
  tls = s.tls;
  content = s.content;
  confidence = s.confidence;
  failure_streak = s.failure_streak;
  success_streak = s.success_streak;
  failure_stage = nullable_string s.failure_stage;
  error_code = nullable_string (code_text s.error_code);
  last_checked_at = some checked_at;
}

-- `beforeValues` and `afterValues`, and the lookup of a dimension, "" where it is missing.
values :
    Availability
    → DnsStatus
    → HttpStatus
    → RedirectStatus
    → IspStatus
    → TlsStatus
    → ContentStatus
    → List (String × String)
unfolding availability_text dns_text http_text redirect_text isp_text tls_text content_text
values availability dns http redirect isp tls content =
    ("availability", availability_text availability)
    ∷ ("dns", dns_text dns)
    ∷ ("http", http_text http)
    ∷ ("redirect", redirect_text redirect)
    ∷ ("isp", isp_text isp)
    ∷ ("tls", tls_text tls)
    ∷ ("content", content_text content)
    ∷ []

value_of : String → List (String × String) → String
value_of k [] = ""
value_of k ((j, v) ∷ m) = if str_eq j k then v else value_of k m

-- `persistHistory`: a row for each changed dimension.
unfoldable pub persist_history :
    ℕ → EffectiveInput → EffectiveState → List String → ℕ → List HistoryRow
unfolding values value_of
persist_history run before after reasons effective_at =
    let before_values =
      values before.current_availability before.current_dns before.current_http
        before.current_redirect before.current_isp before.current_tls before.current_content in
    let after_values =
      values after.availability after.dns after.http after.redirect after.isp after.tls
        after.content in
    map
      (λ dimension. record {
        dimension = dimension;
        previous_value = nullable_string (value_of dimension before_values);
        current_value = value_of dimension after_values;
        confidence = after.confidence;
        reasons = reasons;
        run = run;
        effective_at = effective_at;
      })
      after.changed_dimensions

abbrev pub is_running : RunStatus → Bool
is_running RunStatus.running = true
is_running _ = false

-- The part of the transaction after the lock, with the effective state at hand.
commit : Config → ℕ → Run → Decision → ℕ → EffectiveInput → EffectiveState → Store → Store
unfolding write_back persist_history
commit cfg fresh run decision checked_at current s store = record {
  domain = write_back s checked_at;
  incidents =
      if is_manual run.trigger
      then store.incidents
      else apply_incident fresh run.id decision s cfg.incident_open_failures
          cfg.incident_close_success checked_at decision.availability store.incidents.active
          store.incidents;
  history = persist_history run.id current s decision.reasons checked_at ++ store.history;
  results = (run.id, decision) ∷ store.results;
}

-- `CompleteRun`: it commits only if the run is still marked as running.
unfoldable pub complete_run : Config → ℕ → Run → Decision → ℕ → Store → Option Store
unfolding load commit
complete_run cfg fresh run decision checked_at store =
    let current = load cfg store.domain run.trigger decision in
    if is_running run.status
    then some (commit cfg fresh run decision checked_at current (advance current) store)
    else none

-- One completion: the identifier for a new incident, the run, its decision and the time of the check
-- (`checked_at`, the clock's reading where the evidence has none).
pub record Job : Type 0 where
  pub fresh : ℕ
  pub run : Run
  pub decision : Decision
  pub checked_at : ℕ

-- The store after one completion: a transaction that fails leaves it as it was.
unfoldable pub after : Config → Job → Store → Store
after cfg j s = elim (complete_run cfg j.fresh j.run j.decision j.checked_at s) [
  | some t ↦ t
  | none ↦ s
]

-- The store after a list of completions.
unfoldable pub play : Config → List Job → Store → Store
play cfg [] s = s
play cfg (j ∷ js) s = play cfg js (after cfg j s)
