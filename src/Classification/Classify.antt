-- ===== src/Classification/Classify.antt =====
-- `Classify` of internal/classification/classification.go: the decision on the evidence of one run.
pub mod Verdict
pub mod Reasons
use domains_checker_infomati.Base.{
  ℕ, String, List, [], ◌∷◌, ◌++◌, Option, none, some, Bool, true, false, not, ◌&&◌, ◌||◌,
  if◌then◌else◌, ltb, leb, ◌==◌, ◌+◌, str_eq, starts_with, last?, is_some, length, has_text,
}
use domains_checker_infomati.Base.Int.{ℤ, pos, pos_part, ◌+ℤ◌, ◌-ℤ◌, ltb_ℤ}
use domains_checker_infomati.Base.Text.{Text}
use domains_checker_infomati.Netcheck.{Code, code_text}
use domains_checker_infomati.Status.{
  Availability, DnsStatus, HttpStatus, RedirectStatus, IspStatus, TlsStatus, ContentStatus,
  ConfidenceLevel, is_active,
}
use domains_checker_infomati.Classification.Decision.{Decision, confidence_level}
use domains_checker_infomati.Dns.Types.{QueryType, Result, Comparison, code_eq}
use domains_checker_infomati.Dns.Compare.{latest_by_type, compare}
use domains_checker_infomati.Http.Types.{RedirectHop, Attempt, OriginResult, TlsResult}
use domains_checker_infomati.Classification.Parts.{
  effective_attempt, answered, failed_with, any_failed_with, classify_dns, http_of_code, between,
  classify_http, any_permanent, redirect_of_code, classify_redirect, tls_or_unknown,
  content_or_unknown, tls_of_code, without_handshake, classify_tls, availability_of_content,
  availability_of_code, classify_availability,
}
use domains_checker_infomati.Classification.Evidence.{
  failure_stage, unique_from, unique, reasons_of, permanent_reason, error_reason, evidence_reasons,
  has_conclusive_dns, count_code, repeated_failure, base_score, is_ok, is_discrepancy, bonus,
  score_from, score,
}

-- The decision where no attempt was made.
without_attempt : DnsStatus → Decision
without_attempt dns = record {
  availability = Availability.unknown;
  dns = dns;
  http = HttpStatus.unknown;
  redirect = RedirectStatus.nothing;
  isp = IspStatus.unknown;
  tls = TlsStatus.unknown;
  content = ContentStatus.unknown;
  initial_http = 0;
  final_http = 0;
  final_target = Availability.blank;
  failure_stage = "http";
  error_code = Code.http_timeout;
  error_message = "HTTP checker returned no attempts";
  confidence = 20;
  confidence_level = confidence_level 20;
  reasons = "HTTP_EVIDENCE_MISSING" ∷ [];
}

-- The decision on an attempt, before its reasons and its score.
graded : DnsStatus → Attempt → Decision
graded dns attempt = record {
  availability = classify_availability attempt;
  dns = dns;
  http = classify_http attempt;
  redirect = classify_redirect attempt;
  isp = IspStatus.unknown;
  tls = classify_tls attempt;
  content = content_or_unknown attempt.content.status;
  initial_http = attempt.initial_status_code;
  final_http = attempt.final_status_code;
  final_target =
      if is_active (classify_availability attempt) then Availability.active else Availability.blank;
  failure_stage = failure_stage attempt.error_code;
  error_code = attempt.error_code;
  error_message = attempt.error_message;
  confidence = 0;
  confidence_level = ConfidenceLevel.blank;
  reasons = [];
}

with_attempt : Decision → Comparison → List Result → List Result → Decision
with_attempt d comparison local_dns alternate_dns = record d {
  reasons = evidence_reasons d comparison;
  confidence = score d local_dns alternate_dns;
  confidence_level = confidence_level (score d local_dns alternate_dns);
}

-- `Classify`; `parse` is the parser of addresses that the comparison uses.
unfoldable pub classify : (Text → Option Text) → List Result → List Result → OriginResult → Decision
unfolding without_attempt graded with_attempt
classify parse local_dns alternate_dns origin =
    let comparison = compare parse local_dns alternate_dns in
    let dns = classify_dns local_dns comparison in
    elim (effective_attempt origin) [
      | none ↦ without_attempt dns
      | some attempt ↦ with_attempt (graded dns attempt) comparison local_dns alternate_dns
    ]
