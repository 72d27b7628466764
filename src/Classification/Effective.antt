-- ===== src/Classification/Effective.antt =====
-- `Advance` of internal/classification/state.go: how one observed decision moves the effective
-- state of a domain. Streaks and thresholds are counts; a threshold below 1 takes its default.
pub mod Steps
pub mod Dimensions
use domains_checker_infomati.Base.{
  ℕ, ◌+◌, String, List, [], ◌∷◌, ◌++◌, Bool, true, false, not, ◌&&◌, ◌||◌, if◌then◌else◌, leb, ltb,
  ite,
}
use domains_checker_infomati.Netcheck.{Code}
use domains_checker_infomati.Status.{
  Availability, DnsStatus, HttpStatus, RedirectStatus, IspStatus, TlsStatus, ContentStatus,
  Availability-discrete, DnsStatus-discrete, HttpStatus-discrete, RedirectStatus-discrete,
  IspStatus-discrete, TlsStatus-discrete, ContentStatus-discrete, is_active, is_unavailable,
  is_unknown,
}
use domains_checker_infomati.Classification.Decision.{Decision}

pub record EffectiveInput : Type 0 where
  pub current_availability : Availability
  pub current_dns : DnsStatus
  pub current_http : HttpStatus
  pub current_redirect : RedirectStatus
  pub current_isp : IspStatus
  pub current_tls : TlsStatus
  pub current_content : ContentStatus
  pub current_confidence : ℕ
  pub failure_streak : ℕ
  pub success_streak : ℕ
  pub observed : Decision
  pub qualifying : Bool
  pub open_failures : ℕ
  pub close_successes : ℕ

pub record EffectiveState : Type 0 where
  pub availability : Availability
  pub dns : DnsStatus
  pub http : HttpStatus
  pub redirect : RedirectStatus
  pub isp : IspStatus
  pub tls : TlsStatus
  pub content : ContentStatus
  pub confidence : ℕ
  pub failure_stage : String
  pub error_code : Code
  pub failure_streak : ℕ
  pub success_streak : ℕ
  pub opened_incident : Bool
  pub closed_incident : Bool
  pub changed_dimensions : List String

-- The state that `Advance` starts from.
unfoldable pub carried : EffectiveInput → EffectiveState
carried i = record {
  availability = i.current_availability;
  dns = i.current_dns;
  http = i.current_http;
  redirect = i.current_redirect;
  isp = i.current_isp;
  tls = i.current_tls;
  content = i.current_content;
  confidence = i.current_confidence;
  failure_stage = "";
  error_code = Code.no_code;
  failure_streak = i.failure_streak;
  success_streak = i.success_streak;
  opened_incident = false;
  closed_incident = false;
  changed_dimensions = [];
}

abbrev pub or_default : ℕ → ℕ → ℕ
or_default fallback n = if ltb n 1 then fallback else n

-- The inner `switch` after a success, with the new success streak.
unfoldable pub recovered : Availability → ℕ → ℕ → Availability
recovered Availability.unknown streak close = Availability.active
recovered Availability.active streak close = Availability.active
recovered Availability.degraded streak close =
    if leb close streak then Availability.active else Availability.degraded
recovered Availability.unavailable streak close =
    if leb close streak then Availability.active else Availability.degraded
recovered Availability.blank streak close = Availability.blank

success : EffectiveInput → EffectiveState → EffectiveState
unfolding recovered
success i s = record s {
  success_streak = s.success_streak + 1;
  failure_streak = 0;
  failure_stage = "";
  error_code = Code.no_code;
  availability = recovered s.availability (s.success_streak + 1) (or_default 2 i.close_successes);
}

failure : EffectiveInput → EffectiveState → EffectiveState
failure i s = record s {
  failure_streak = s.failure_streak + 1;
  success_streak = 0;
  failure_stage = i.observed.failure_stage;
  error_code = i.observed.error_code;
  availability =
      if leb (or_default 3 i.open_failures) (s.failure_streak + 1)
      then Availability.unavailable
      else Availability.degraded;
}

-- The outer `switch` on the observed availability.
observe : Availability → EffectiveInput → EffectiveState → EffectiveState
unfolding success failure
observe Availability.active i s = success i s
observe Availability.degraded i s = failure i s
observe Availability.unavailable i s = failure i s
observe _ i s = s

-- `observedOrCurrent`, once for each vocabulary.
unfoldable pub observed_or_current_dns : DnsStatus → DnsStatus → DnsStatus
observed_or_current_dns DnsStatus.blank current = current
observed_or_current_dns DnsStatus.unknown current = current
observed_or_current_dns observed current = observed

unfoldable pub observed_or_current_http : HttpStatus → HttpStatus → HttpStatus
observed_or_current_http HttpStatus.blank current = current
observed_or_current_http HttpStatus.unknown current = current
observed_or_current_http observed current = observed

unfoldable pub observed_or_current_redirect : RedirectStatus → RedirectStatus → RedirectStatus
observed_or_current_redirect RedirectStatus.blank current = current
observed_or_current_redirect RedirectStatus.unknown current = current
observed_or_current_redirect observed current = observed

unfoldable pub observed_or_current_isp : IspStatus → IspStatus → IspStatus
observed_or_current_isp IspStatus.blank current = current
observed_or_current_isp IspStatus.unknown current = current
observed_or_current_isp observed current = observed

unfoldable pub observed_or_current_tls : TlsStatus → TlsStatus → TlsStatus
observed_or_current_tls TlsStatus.blank current = current
observed_or_current_tls TlsStatus.unknown current = current
observed_or_current_tls observed current = observed

unfoldable pub observed_or_current_content : ContentStatus → ContentStatus → ContentStatus
observed_or_current_content ContentStatus.blank current = current
observed_or_current_content ContentStatus.unknown current = current
observed_or_current_content observed current = observed

-- One entry of the table in `changedDimensions`.
unfoldable pub changed {ℓ} : {A : Type ℓ} → Discrete A → String → A → A → List String
changed d name before after = ite (d before after) [] (name ∷ [])

unfoldable pub changed_dimensions : EffectiveInput → EffectiveState → List String
unfolding changed
changed_dimensions i s =
    changed Availability-discrete "availability" i.current_availability s.availability
    ++ (changed DnsStatus-discrete "dns" i.current_dns s.dns
        ++ (changed HttpStatus-discrete "http" i.current_http s.http
            ++ (changed RedirectStatus-discrete "redirect" i.current_redirect s.redirect
                ++ (changed IspStatus-discrete "isp" i.current_isp s.isp
                    ++ (changed TlsStatus-discrete "tls" i.current_tls s.tls
                        ++ changed ContentStatus-discrete "content" i.current_content s.content)))))

-- What follows the `switch`: the other dimensions, the incident flags and the list of changes.
settle : EffectiveInput → EffectiveState → EffectiveState
settle i s =
    let t = record s {
      dns = observed_or_current_dns i.observed.dns s.dns;
      http = observed_or_current_http i.observed.http s.http;
      redirect = observed_or_current_redirect i.observed.redirect s.redirect;
      isp = observed_or_current_isp i.observed.isp s.isp;
      tls = observed_or_current_tls i.observed.tls s.tls;
      content = observed_or_current_content i.observed.content s.content;
      confidence = i.observed.confidence;
      opened_incident =
          not (is_unavailable i.current_availability) && is_unavailable s.availability;
      closed_incident = is_unavailable i.current_availability && is_active s.availability;
    } in
    record t { changed_dimensions = changed_dimensions i t }

-- `Advance`.
unfoldable pub advance : EffectiveInput → EffectiveState
unfolding carried observe settle
advance i =
    if not i.qualifying || is_unknown i.observed.availability
    then carried i
    else settle i (observe i.observed.availability i (carried i))
