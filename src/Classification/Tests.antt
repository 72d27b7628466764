-- ===== src/Classification/Tests.antt =====
-- Decisions by example: a page, an outage, and an empty body of which only the status was asked.
use domains_checker_infomati.Base.{ℕ, [], ◌∷◌, ◌≡◌, refl, true, false, none, Option}
use domains_checker_infomati.Base.Int.{pos}
use domains_checker_infomati.Base.Text.{Text}
use domains_checker_infomati.Netcheck.{Code, Code-discrete, code_text}
use domains_checker_infomati.Status.{
  Availability, DnsStatus, HttpStatus, RedirectStatus, IspStatus, TlsStatus, ContentStatus,
  ConfidenceLevel,
}
use domains_checker_infomati.Dns.Compare.{compare}
use domains_checker_infomati.Http.Types.{Attempt, OriginResult}
use domains_checker_infomati.Classification.Parts.{
  effective_attempt, classify_availability, classify_redirect,
}
use domains_checker_infomati.Classification.Evidence.{failure_stage, unique_from, evidence_reasons}
use domains_checker_infomati.Classification.Classify.{classify}
use domains_checker_infomati.Classification.Effective.{EffectiveInput, advance}
use domains_checker_infomati.Classification.Effective.Dimensions.{ReportsAll, advance-ReportsAll}

abbrev no_address : Text → Option Text
no_address value = none

abbrev attempt : ℕ → ContentStatus → Code → Attempt
attempt status content code = record {
  attempt = 1;
  request_url = "https://a.example/";
  effective_url = "https://a.example/";
  protocol = "HTTP/2.0";
  initial_status_code = status;
  final_status_code = status;
  redirects = [];
  timing = record { dns = 0; connect = 0; tls = 0; ttfb = 0; total = 0; reused = false };
  content = record {
    status = content;
    content_type = "text/html";
    declared_content_length = pos 0;
    body_size = 0;
    hash_complete = true;
    title = "";
    error_code = Code.no_code;
    error_message = "";
  };
  server_header = "";
  tls = none;
  error_code = code;
  error_message = "";
  checked_at = 0;
  retry_after = 0;
  retryable = false;
}

abbrev origin : Attempt → OriginResult
origin a = record { https = a ∷ []; http = []; used_http_fallback = false }

abbrev page : OriginResult
page = origin (attempt 200 ContentStatus.valid_html Code.no_code)

page_reasons :
    (classify no_address [] [] page).reasons ≡ "HTTP_FINAL_SUCCESS" ∷ "CONTENT_VALID" ∷ []
unfolding classify effective_attempt evidence_reasons unique_from compare classify_availability
    classify_redirect code_text
page_reasons = refl

timeout_stage :
    (classify no_address [] []
      (origin (attempt 0 ContentStatus.unknown Code.tcp_timeout))).failure_stage
    ≡ "tcp"
unfolding classify Code-discrete effective_attempt failure_stage
timeout_stage = refl

abbrev hollow : Attempt
hollow = attempt 200 ContentStatus.empty Code.no_code

-- The second success after an outage.
abbrev second : EffectiveInput
second = record {
  current_availability = Availability.degraded;
  current_dns = DnsStatus.timeout;
  current_http = HttpStatus.timeout;
  current_redirect = RedirectStatus.nothing;
  current_isp = IspStatus.unknown;
  current_tls = TlsStatus.valid;
  current_content = ContentStatus.valid_html;
  current_confidence = 40;
  failure_streak = 0;
  success_streak = 1;
  observed = record {
    availability = Availability.active;
    dns = DnsStatus.ok;
    http = HttpStatus.ok;
    redirect = RedirectStatus.nothing;
    isp = IspStatus.unknown;
    tls = TlsStatus.valid;
    content = ContentStatus.valid_html;
    initial_http = 200;
    final_http = 200;
    final_target = Availability.active;
    failure_stage = "";
    error_code = Code.no_code;
    error_message = "";
    confidence = 85;
    confidence_level = ConfidenceLevel.high;
    reasons = [];
  };
  qualifying = true;
  open_failures = 3;
  close_successes = 2;
}

second_recovers : (advance second).availability ≡ Availability.active
unfolding advance
second_recovers = refl

advance-ReportsAll_example : ReportsAll second (advance second)
advance-ReportsAll_example = advance-ReportsAll second
