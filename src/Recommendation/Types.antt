-- ===== src/Recommendation/Types.antt =====
-- internal/recommendation/engine.go: the input and the result of a recommendation. The domain is a
-- list of ASCII code points; instants are nanoseconds.
use domains_checker_infomati.Base.{ℕ, String, List, Option, Bool}
use domains_checker_infomati.Base.Text.{Text}
use domains_checker_infomati.Status.{
  Availability, DnsStatus, HttpStatus, RedirectStatus, IspStatus, TlsStatus, ConfidenceLevel,
}

pub data Lifecycle : Type 0 where
  active inactive archived : Lifecycle

pub data SourceStatus : Type 0 where
  present missing_from_source unknown : SourceStatus

pub data Priority : Type 0 where
  low medium high critical : Priority

pub data Action : Type 0 where
  review drop profit_opportunity renew : Action

pub data OpportunityLevel : Type 0 where
  low medium high : OpportunityLevel

pub record Input : Type 0 where
  pub domain : Text
  pub lifecycle : Lifecycle
  pub source_status : SourceStatus
  pub priority : Priority
  pub monitoring : Bool
  pub availability : Availability
  pub dns : DnsStatus
  pub http : HttpStatus
  pub redirect : RedirectStatus
  pub isp : IspStatus
  pub tls : TlsStatus
  pub status_confidence : ℕ
  pub last_checked_at : Option ℕ
  pub expiration_at : Option ℕ
  pub renewal_amount : String
  pub renewal_currency : String
  pub open_incidents : ℕ
  pub incidents_90_days : ℕ
  pub downtime_changes : ℕ

pub record Result : Type 0 where
  pub action : Action
  pub opportunity_level : OpportunityLevel
  pub confidence_score : ℕ
  pub confidence_level : ConfidenceLevel
  pub reason_codes : List String
  pub reasons_th : List String
  pub reasons_en : List String
  pub evidence_refs : List String
