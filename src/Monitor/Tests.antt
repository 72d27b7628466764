-- ===== src/Monitor/Tests.antt =====
-- Three failures and two successes of one domain, and the theorems on their runs.
use domains_checker_infomati.Base.{
  ℕ, ◌≡◌, refl, List, [], ◌∷◌, none, some, true, false, arith, is_some, leb, length, ◌+◌,
}
use domains_checker_infomati.Netcheck.{Code, code_text}
use domains_checker_infomati.Status.{
  Availability, DnsStatus, HttpStatus, RedirectStatus, IspStatus, TlsStatus, ContentStatus,
  ConfidenceLevel,
}
use domains_checker_infomati.Classification.Decision.{Decision}
use domains_checker_infomati.Classification.Effective.{advance}
use domains_checker_infomati.Monitor.Incidents.{apply_incident, nullable_string}
use domains_checker_infomati.Monitor.Complete.{
  Config, Trigger, RunStatus, Store, load, complete_run, write_back, persist_history, Job, after,
  play,
}
use domains_checker_infomati.Monitor.Complete.Aligned.{IsSane, Aligned, after-Aligned, play-Aligned}
use domains_checker_infomati.Monitor.Complete.Thresholds.{
  IsSuccess, IsOutage, IsCalm, play-outage_threshold, play-recovers,
}
use domains_checker_infomati.Monitor.Complete.Manual.{manual_run, closed_flag_unset}

abbrev cfg : Config
cfg = record { incident_open_failures = 3; incident_close_success = 2 }

abbrev observed : Availability → Code → Decision
observed availability code = record {
  availability = availability;
  dns = DnsStatus.ok;
  http = HttpStatus.unknown;
  redirect = RedirectStatus.nothing;
  isp = IspStatus.unknown;
  tls = TlsStatus.unknown;
  content = ContentStatus.unknown;
  initial_http = 0;
  final_http = 0;
  final_target = Availability.blank;
  failure_stage = "";
  error_code = code;
  error_message = "";
  confidence = 40;
  confidence_level = ConfidenceLevel.low;
  reasons = "QUALIFYING_FAILURE" ∷ [];
}

abbrev job : ℕ → Trigger → Availability → Code → Job
job n trigger availability code = record {
  fresh = n;
  run = record { id = n; trigger = trigger; status = RunStatus.running };
  decision = observed availability code;
  checked_at = n;
}

abbrev down : ℕ → Job
down n = job n Trigger.scheduled Availability.unavailable Code.tcp_timeout

abbrev up : ℕ → Job
up n = job n Trigger.scheduled Availability.active Code.no_code

abbrev healthy : Store
healthy = record {
  domain = record {
    availability = Availability.active;
    dns = DnsStatus.ok;
    http = HttpStatus.ok;
    redirect = RedirectStatus.nothing;
    isp = IspStatus.unknown;
    tls = TlsStatus.valid;
    content = ContentStatus.valid_html;
    confidence = 85;
    failure_streak = 0;
    success_streak = 4;
    failure_stage = none;
    error_code = none;
    last_checked_at = none;
  };
  incidents = record { active = none; closed = []; events = [] };
  history = [];
  results = [];
}

abbrev outage : List Job
outage = down 1 ∷ down 2 ∷ down 3 ∷ []

abbrev recovery : List Job
recovery = up 4 ∷ up 5 ∷ []

cfg-IsSane : IsSane cfg
cfg-IsSane = omega arith

healthy-Aligned : Aligned healthy
healthy-Aligned = record {
  outage = λ h. absurd (cc);
  ongoing = λ h. absurd (cc);
  quiet = λ h. absurd (cc);
}

healthy-IsCalm : IsCalm cfg 0 healthy
healthy-IsCalm = record { streak = refl; below = omega arith; without = refl }

abbrev failed : Store
failed = play cfg outage healthy

play-Aligned_example : Aligned failed
play-Aligned_example = play-Aligned cfg outage healthy cfg-IsSane healthy-Aligned

outage_lem : IsOutage (down 1) × IsOutage (down 2) × IsOutage (down 3)
outage_lem = ground arith

play-outage_threshold_example :
    is_some (play cfg outage healthy).incidents.active ≡ leb 3 (0 + length outage)
play-outage_threshold_example =
    play-outage_threshold cfg 0 outage healthy (outage_lem.0, (outage_lem.1, (outage_lem.2, tt)))
      healthy-IsCalm

failed_active : is_some failed.incidents.active ≡ true
failed_active =
    play-outage_threshold cfg 0 outage healthy (outage_lem.0, (outage_lem.1, (outage_lem.2, tt)))
      healthy-IsCalm

failed-Aligned : Aligned failed
failed-Aligned = play-Aligned cfg outage healthy cfg-IsSane healthy-Aligned

recovery-IsSuccess : IsSuccess (up 4) × IsSuccess (up 5)
recovery-IsSuccess = ground arith

play-recovers_example :
    ((play cfg recovery failed).incidents.active ≡ none)
    × ((play cfg recovery failed).domain.availability ≡ Availability.active)
play-recovers_example =
    play-recovers cfg recovery failed cfg-IsSane failed-Aligned
      (recovery-IsSuccess.0, (recovery-IsSuccess.1, tt)) failed_active (omega arith) (omega arith)

abbrev look : Job
look = job 9 Trigger.manual Availability.active Code.no_code

manual_run_example : (after cfg look failed).domain.failure_stage ≡ none
manual_run_example = (manual_run cfg look failed refl refl).6

-- The failed domain, under an open incident with the code of the last failure.
failed_code : failed.domain.error_code ≡ some "TCP_TIMEOUT"
unfolding play after complete_run advance apply_incident write_back persist_history code_text
    nullable_string
failed_code = refl

abbrev recovering : Store
recovering = after cfg (up 4) failed

recovering_active : is_some recovering.incidents.active ≡ true
unfolding play after complete_run advance apply_incident
recovering_active = refl

recovered_none : (after cfg (up 5) recovering).incidents.active ≡ none
unfolding play after complete_run advance apply_incident
recovered_none = refl

closed_flag_unset_example :
    (advance (load cfg recovering.domain Trigger.scheduled (up 5).decision)).closed_incident ≡ false
closed_flag_unset_example =
    closed_flag_unset cfg (up 5) recovering (omega arith)
      (after-Aligned cfg (up 4) failed cfg-IsSane failed-Aligned) recovering_active recovered_none
