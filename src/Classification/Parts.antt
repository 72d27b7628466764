-- ===== src/Classification/Parts.antt =====
-- internal/classification/classification.go: the verdict on each dimension of one run.
use domains_checker_infomati.Base.{
  ℕ, String, List, [], ◌∷◌, Option, none, some, Bool, false, ◌&&◌, ◌||◌, if◌then◌else◌, ltb, leb,
  ◌==◌, str_eq, starts_with, last?, is_some, length,
}
use domains_checker_infomati.Netcheck.{Code}
use domains_checker_infomati.Status.{
  Availability, DnsStatus, HttpStatus, RedirectStatus, TlsStatus, ContentStatus,
}
use domains_checker_infomati.Dns.Types.{QueryType, Result, Comparison, code_eq}
use domains_checker_infomati.Dns.Compare.{latest_by_type}
use domains_checker_infomati.Http.Types.{RedirectHop, Attempt, OriginResult}

-- `effectiveAttempt`.
unfoldable pub effective_attempt : OriginResult → Option Attempt
effective_attempt origin =
    if origin.used_http_fallback && is_some (last? origin.http)
    then last? origin.http
    else last? origin.https

-- The latest result of a type is free of errors and has the code NOERROR.
abbrev pub answered : Option Result → Bool
answered none = false
answered (some r) = code_eq r.error_code Code.no_code && str_eq r.r_code "NOERROR"

abbrev pub failed_with : Code → Option Result → Bool
failed_with code none = false
failed_with code (some r) = code_eq r.error_code code

-- Some latest result has the code: the loop over the map, whose order makes no difference.
unfoldable pub any_failed_with : Code → (QueryType → Option Result) → Bool
any_failed_with code latest =
    failed_with code (latest QueryType.a)
    || failed_with code (latest QueryType.aaaa)
    || failed_with code (latest QueryType.cname)
    || failed_with code (latest QueryType.ns)

unfoldable pub classify_dns : List Result → Comparison → DnsStatus
unfolding any_failed_with
classify_dns results comparison =
    let latest = latest_by_type results in
    if comparison.discrepancy
    then DnsStatus.discrepancy
    else if answered (latest QueryType.a)
        || answered (latest QueryType.aaaa)
        || answered (latest QueryType.cname)
    then DnsStatus.ok
    else if any_failed_with Code.dns_nxdomain latest
    then DnsStatus.nxdomain
    else if any_failed_with Code.dns_servfail latest
    then DnsStatus.servfail
    else if any_failed_with Code.dns_refused latest
    then DnsStatus.refused
    else if any_failed_with Code.dns_timeout latest
    then DnsStatus.timeout
    else if any_failed_with Code.dns_network_error latest
    then DnsStatus.network_error
    else DnsStatus.unknown

-- The `switch` of `classifyHTTP` on the error code.
pub http_of_code : Code → HttpStatus
http_of_code Code.http_timeout = HttpStatus.timeout
http_of_code Code.tcp_timeout = HttpStatus.timeout
http_of_code Code.http_redirect_loop = HttpStatus.redirect
http_of_code Code.http_redirect_limit = HttpStatus.redirect
http_of_code Code.http_malformed_location = HttpStatus.redirect
http_of_code Code.http_https_downgrade = HttpStatus.redirect
http_of_code Code.tcp_refused = HttpStatus.connection_error
http_of_code Code.tcp_reset = HttpStatus.connection_error
http_of_code Code.tcp_network_error = HttpStatus.connection_error
http_of_code Code.dns_timeout = HttpStatus.connection_error
http_of_code Code.dns_network_error = HttpStatus.connection_error
http_of_code Code.dns_nxdomain = HttpStatus.connection_error
http_of_code Code.dns_servfail = HttpStatus.connection_error
http_of_code Code.dns_refused = HttpStatus.connection_error
http_of_code Code.tls_expired = HttpStatus.connection_error
http_of_code Code.tls_hostname = HttpStatus.connection_error
http_of_code Code.tls_unknown_authority = HttpStatus.connection_error
http_of_code Code.tls_handshake = HttpStatus.connection_error
http_of_code _ = HttpStatus.unknown

abbrev pub between : ℕ → ℕ → ℕ → Bool
between low status high = leb low status && ltb status high

unfoldable pub classify_http : Attempt → HttpStatus
unfolding http_of_code
classify_http attempt =
    let status = attempt.final_status_code in
    if ltb 0 (length attempt.redirects) && between 200 status 400
    then HttpStatus.redirect
    else if between 200 status 400
    then HttpStatus.ok
    else if between 400 status 500
    then HttpStatus.client_error
    else if leb 500 status
    then HttpStatus.server_error
    else http_of_code attempt.error_code

-- The loop of `classifyRedirect` over the hops.
pub any_permanent : List RedirectHop → Bool
any_permanent [] = false
any_permanent (hop ∷ hops) = hop.status_code == 301 || hop.status_code == 308 || any_permanent hops

pub redirect_of_code : Code → Option RedirectStatus
redirect_of_code Code.http_redirect_loop = some RedirectStatus.loop
redirect_of_code Code.http_redirect_limit = some RedirectStatus.invalid
redirect_of_code Code.http_malformed_location = some RedirectStatus.invalid
redirect_of_code Code.http_https_downgrade = some RedirectStatus.https_downgrade
redirect_of_code _ = none

unfoldable pub classify_redirect : Attempt → RedirectStatus
unfolding any_permanent redirect_of_code
classify_redirect attempt = elim (redirect_of_code attempt.error_code) [
  | some status ↦ status
  | none ↦
      if length attempt.redirects == 0
      then RedirectStatus.nothing
      else if any_permanent attempt.redirects
      then RedirectStatus.permanent
      else RedirectStatus.temporary
]

-- `defaultString` with "UNKNOWN", on the two vocabularies that it is used for.
abbrev pub tls_or_unknown : TlsStatus → TlsStatus
tls_or_unknown TlsStatus.blank = TlsStatus.unknown
tls_or_unknown status = status

abbrev pub content_or_unknown : ContentStatus → ContentStatus
content_or_unknown ContentStatus.blank = ContentStatus.unknown
content_or_unknown status = status

pub tls_of_code : Code → Option TlsStatus
tls_of_code Code.tls_expired = some TlsStatus.expired
tls_of_code Code.tls_hostname = some TlsStatus.hostname_mismatch
tls_of_code Code.tls_unknown_authority = some TlsStatus.invalid
tls_of_code Code.tls_handshake = some TlsStatus.error
tls_of_code _ = none

pub without_handshake : Option TlsStatus → String → TlsStatus
without_handshake (some status) url = status
without_handshake none url =
    if starts_with url "http://" then TlsStatus.not_applicable else TlsStatus.unknown

unfoldable pub classify_tls : Attempt → TlsStatus
unfolding tls_of_code without_handshake
classify_tls attempt = elim attempt.tls [
  | some result ↦ tls_or_unknown result.status
  | none ↦ without_handshake (tls_of_code attempt.error_code) attempt.request_url
]

pub availability_of_content : ContentStatus → Availability
availability_of_content ContentStatus.valid_html = Availability.active
availability_of_content ContentStatus.valid_non_html = Availability.active
availability_of_content _ = Availability.degraded

-- The `switch` of `classifyAvailability` on the error code.
pub availability_of_code : Code → Availability
availability_of_code Code.run_cancelled = Availability.unknown
availability_of_code Code.run_deadline_exceeded = Availability.unknown
availability_of_code Code.content_empty = Availability.degraded
availability_of_code Code.content_too_small = Availability.degraded
availability_of_code Code.content_not_meaningful = Availability.degraded
availability_of_code Code.content_too_large = Availability.degraded
availability_of_code Code.content_unsupported = Availability.degraded
availability_of_code Code.no_code = Availability.unknown
availability_of_code _ = Availability.unavailable

unfoldable pub classify_availability : Attempt → Availability
unfolding availability_of_content availability_of_code
classify_availability attempt =
    let status = attempt.final_status_code in
    if between 200 status 300
    then availability_of_content attempt.content.status
    else if between 400 status 500
    then Availability.degraded
    else if leb 500 status
    then Availability.unavailable
    else availability_of_code attempt.error_code
