-- ===== src/Classification/Decision.antt =====
-- `Decision` of internal/classification/classification.go, and its thresholds of confidence.
use domains_checker_infomati.Base.{ℕ, String, List, if◌then◌else◌, leb}
use domains_checker_infomati.Netcheck.{Code}
use domains_checker_infomati.Status.{
  Availability, DnsStatus, HttpStatus, RedirectStatus, IspStatus, TlsStatus, ContentStatus,
  ConfidenceLevel,
}

-- The fields in the source's order; status codes and scores are numbers, 0 where nothing is set.
pub record Decision : Type 0 where
  pub availability : Availability
  pub dns : DnsStatus
  pub http : HttpStatus
  pub redirect : RedirectStatus
  pub isp : IspStatus
  pub tls : TlsStatus
  pub content : ContentStatus
  pub initial_http : ℕ
  pub final_http : ℕ
  pub final_target : Availability
  pub failure_stage : String
  pub error_code : Code
  pub error_message : String
  pub confidence : ℕ
  pub confidence_level : ConfidenceLevel
  pub reasons : List String

unfoldable pub confidence_level : ℕ → ConfidenceLevel
confidence_level score =
    if leb 80 score
    then ConfidenceLevel.high
    else if leb 50 score
    then ConfidenceLevel.medium
    else ConfidenceLevel.low
