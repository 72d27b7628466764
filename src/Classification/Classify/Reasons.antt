-- ===== src/Classification/Classify/Reasons.antt =====
-- The reasons and the failure stage of a decision (internal/classification/classification.go).
use text.Mathlib.TextPositions.{eq_refl}
use domains_checker_infomati.Base.{
  ◌≤◌, ◌<◌, ◌≡◌, ◌≢◌, refl, String, List, [], ◌∷◌, Option, some, not, ◌&&◌, arith, Option-cases,
  inl, inr, str_eq, eq_iff, has_text, Distinct,
}
use domains_checker_infomati.Base.Text.{Text}
use domains_checker_infomati.Netcheck.{Code, Code-discrete, code_text}
use domains_checker_infomati.Status.{Availability, ContentStatus}
use domains_checker_infomati.Dns.Types.{Result}
use domains_checker_infomati.Http.Types.{Attempt, OriginResult}
use domains_checker_infomati.Classification.Parts.{effective_attempt, classify_availability}
use domains_checker_infomati.Classification.Evidence.{failure_stage, unique_from, evidence_reasons}
use domains_checker_infomati.Classification.Classify.{classify}

has_text-unique_from :
    (t : String) (seen values : List String)
    → has_text t (unique_from seen values)
      ≡ (not (str_eq t "") && not (has_text t seen) && has_text t values)
unfolding unique_from
has_text-unique_from t seen [] = ground arith
has_text-unique_from t seen (v ∷ vs) = ground (
  arith,
  has_text-unique_from t seen vs,
  has_text-unique_from t (v ∷ seen) vs,
  eq_iff v "",
  eq_iff t "",
  eq_iff v t,
)

unique_from-Distinct : (seen values : List String) → Distinct (unique_from seen values)
unfolding unique_from
unique_from-Distinct seen [] = tt
unique_from-Distinct seen (v ∷ vs) = ground (
  arith,
  unique_from-Distinct seen vs,
  unique_from-Distinct (v ∷ seen) vs,
  has_text-unique_from v (v ∷ seen) vs,
  eq_refl v,
)

-- The reasons of every decision are free of repetition.
pub classify-Distinct :
    (parse : Text → Option Text) (local alternate : List Result) (origin : OriginResult)
    → Distinct (classify parse local alternate origin).reasons
unfolding classify
classify-Distinct parse local alternate origin = elim (Option-cases (effective_attempt origin)) [
  | inl e ↦ rw (e, classify) (refl, tt)
  | inr (a, e) ↦ rw (e, classify) (unfold evidence_reasons in unique_from-Distinct [] _)
]

-- The stage of a failure, code by code.
pub stage_of : Code → String
stage_of Code.dns_nxdomain = "dns"
stage_of Code.dns_servfail = "dns"
stage_of Code.dns_refused = "dns"
stage_of Code.dns_timeout = "dns"
stage_of Code.dns_network_error = "dns"
stage_of Code.dns_malformed_response = "dns"
stage_of Code.dns_cname_loop = "dns"
stage_of Code.dns_cname_limit = "dns"
stage_of Code.tcp_timeout = "tcp"
stage_of Code.tcp_refused = "tcp"
stage_of Code.tcp_reset = "tcp"
stage_of Code.tcp_network_error = "tcp"
stage_of Code.ssrf_blocked_address = "tcp"
stage_of Code.ssrf_blocked_port = "tcp"
stage_of Code.tls_expired = "tls"
stage_of Code.tls_hostname = "tls"
stage_of Code.tls_unknown_authority = "tls"
stage_of Code.tls_handshake = "tls"
stage_of Code.http_timeout = "http"
stage_of Code.http_body_read = "http"
stage_of Code.http_4xx = "http"
stage_of Code.http_5xx = "http"
stage_of Code.http_redirect_loop = "http"
stage_of Code.http_redirect_limit = "http"
stage_of Code.http_malformed_location = "http"
stage_of Code.http_https_downgrade = "http"
stage_of Code.content_empty = "content"
stage_of Code.content_too_small = "content"
stage_of Code.content_not_meaningful = "content"
stage_of Code.content_too_large = "content"
stage_of Code.content_unsupported = "content"
stage_of Code.run_cancelled = "persistence"
stage_of Code.run_deadline_exceeded = "persistence"
stage_of _ = ""

-- The prefixes of the code's text give every code its stage: those of DNS, TCP (with the guard
-- against private addresses), TLS, HTTP and content, the two ends of a run, and none for the rest.
pub failure_stage-stage_of : (c : Code) → failure_stage c ≡ stage_of c
unfolding failure_stage stage_of code_text Code-discrete
failure_stage-stage_of Code.no_code = refl
failure_stage-stage_of _ = refl

-- A response of the class 2xx whose content is not valid, but carries no error code, is degraded
-- with neither an error code nor a failure stage.
pub classify-silent :
    (parse : Text → Option Text) (local alternate : List Result) (origin : OriginResult)
    (a : Attempt)
    → effective_attempt origin ≡ some a
    → 200 ≤ a.final_status_code
    → a.final_status_code < 300
    → a.content.status ≢ ContentStatus.valid_html
    → a.content.status ≢ ContentStatus.valid_non_html
    → a.error_code ≡ Code.no_code
    → let d = classify parse local alternate origin in
      (d.availability ≡ Availability.degraded)
      × (d.error_code ≡ Code.no_code)
      × (d.failure_stage ≡ "")
unfolding classify stage_of
classify-silent parse local alternate origin a e lo hi html other code =
    rw (e, classify)
      (
        unfold classify_availability in ground arith,
        code,
        rw code (failure_stage-stage_of Code.no_code),
      )
