-- ===== src/Http/Requests.antt =====
-- internal/httpcheck/checker.go: URLs, and the classification of failed requests and of status codes.
-- `url.Parse` with `ResolveReference`, `URL.String` and `publicsuffix.EffectiveTLDPlusOne` are
-- parameters.
use Prim.Native.String.{◌++◌ as append}
use domains_checker_infomati.Base.{
  ℕ, String, [], Option, none, some, Bool, true, false, not, ◌&&◌, ◌||◌, if◌then◌else◌, leb, ◌==◌,
  str_eq,
}
use domains_checker_infomati.Base.Text.{Text, codes, text_eq, to_lower, is_empty, trim_space}
use domains_checker_infomati.Netcheck.{
  Code, Error, Failure, ContextState, new, classify_tcp, is_canceled, is_expired,
}

-- The scheme of a parsed URL, which is in lower case.
pub data Scheme : Type 0 where
  http https : Scheme
  other : String → Scheme

-- `url.URL`; `user` is whether it has credentials, `query` its raw query.
pub record Url : Type 0 where
  pub scheme : Scheme
  pub user : Bool
  pub hostname : Text
  pub port : Text
  pub path : Text
  pub query : Text
  pub fragment : Text

abbrev pub is_web : Scheme → Bool
is_web Scheme.http = true
is_web Scheme.https = true
is_web (Scheme.other s) = false

abbrev pub is_http : Scheme → Bool
is_http Scheme.http = true
is_http _ = false

abbrev pub is_https : Scheme → Bool
is_https Scheme.https = true
is_https _ = false

abbrev pub or_root : Text → Text
or_root path = if is_empty path then codes "/" else path

-- A URL, or the text of an error.
pub data Checked : Type 0 where
  refused : String → Checked
  accepted : Url → Checked

-- `validateURL`, from what `url.Parse` made of the trimmed text.
unfoldable pub validate_url : Checked → Checked
validate_url (Checked.refused text) = Checked.refused text
validate_url (Checked.accepted u) =
    if not (is_web u.scheme)
    then Checked.refused "URL scheme must be http or https"
    else if is_empty u.hostname
    then Checked.refused "URL hostname is required"
    else if u.user
    then Checked.refused "credential-bearing URLs are not allowed"
    else Checked.accepted (record u { fragment = []; path = or_root u.path })

abbrev scheme_text : Scheme → String
scheme_text Scheme.http = "http"
scheme_text Scheme.https = "https"
scheme_text (Scheme.other s) = s

-- The end of `resolveRedirect`, on the resolved reference.
unfoldable pub check_target : Url → Checked
check_target u =
    if not (is_web u.scheme)
    then Checked.refused
        (append "redirect target scheme \"" (append (scheme_text u.scheme) "\" is not allowed"))
    else if is_empty u.hostname || u.user
    then Checked.refused "redirect target is invalid or contains credentials"
    else Checked.accepted (record u { fragment = []; path = or_root u.path })

-- `resolveRedirect`; `resolve` parses the location and resolves it against the source, or gives the
-- text of the error of the parsing.
unfoldable pub resolve_redirect : (Url → String → Checked) → Url → String → Checked
unfolding check_target
resolve_redirect resolve source location =
    if str_eq (trim_space location) ""
    then Checked.refused "redirect response has no Location header"
    else elim (resolve source location) [
      | Checked.refused text ↦ Checked.refused (append "parse Location: " text)
      | Checked.accepted target ↦ check_target target
    ]

-- The URL that `canonicalURL` prints.
unfoldable pub canonical : Url → Url
canonical u =
    let standard =
      (is_http u.scheme && text_eq u.port (codes "80"))
      || (is_https u.scheme && text_eq u.port (codes "443")) in
    record u {
      hostname = to_lower u.hostname;
      port = if standard then [] else u.port;
      fragment = [];
      path = or_root u.path;
    }

-- `crossDomain`.
unfoldable pub cross_domain : (Text → Option Text) → Text → Text → Bool
cross_domain registrable source target = elim (registrable (to_lower source)) [
  | none ↦ not (text_eq (to_lower source) (to_lower target))
  | some left ↦ elim (registrable (to_lower target)) [
    | none ↦ not (text_eq (to_lower source) (to_lower target))
    | some right ↦ not (text_eq left right)
  ]
]

-- An error of a request: what `errors.As` finds of certificates, and the rest.
pub record RequestFailure : Type 0 where
  pub failure : Failure
  pub hostname_error : Bool
  pub expired : Bool
  pub unknown_authority : Bool

-- `classifyRequestError`.
unfoldable pub classify_request_error : ContextState → RequestFailure → Error
unfolding new
classify_request_error ctx r = elim r.failure.check [
  | some existing ↦ existing
  | none ↦
      if is_canceled ctx
      then new Code.run_cancelled "http" "request" false (some "context canceled")
      else if is_expired ctx || r.failure.deadline_exceeded
      then new Code.http_timeout "http" "request" true (some "context deadline exceeded")
      else if r.hostname_error
      then new Code.tls_hostname "tls" "HTTP handshake" false (some r.failure.text)
      else if r.expired
      then new Code.tls_expired "tls" "HTTP handshake" false (some r.failure.text)
      else if r.unknown_authority
      then new Code.tls_unknown_authority "tls" "HTTP handshake" false (some r.failure.text)
      else if r.failure.net_timeout
      then new Code.http_timeout "http" "request" true (some r.failure.text)
      else classify_tcp ctx "HTTP request" r.failure
]

-- `classifyStatus`; `decimal` is the decimal notation.
unfoldable pub classify_status : (ℕ → String) → ℕ → Option Error
unfolding new
classify_status decimal status =
    if leb 400 status && leb status 499
    then some (
        new Code.http_4xx "http" "response status" (status == 408 || status == 425 || status == 429)
          (some (append "HTTP status " (decimal status))))
    else if leb 500 status
    then some (
        new Code.http_5xx "http" "response status" (status == 502 || status == 503 || status == 504)
          (some (append "HTTP status " (decimal status))))
    else none

-- `shouldFallbackToHTTP`.
unfoldable pub should_fallback : Code → Bool
should_fallback Code.dns_network_error = true
should_fallback Code.dns_timeout = true
should_fallback Code.tcp_timeout = true
should_fallback Code.tcp_refused = true
should_fallback Code.tcp_reset = true
should_fallback Code.tcp_network_error = true
should_fallback Code.tls_expired = true
should_fallback Code.tls_hostname = true
should_fallback Code.tls_unknown_authority = true
should_fallback Code.tls_handshake = true
should_fallback _ = false

-- `isRedirect`.
unfoldable pub is_redirect : ℕ → Bool
is_redirect status =
    status == 301 || status == 302 || status == 303 || status == 307 || status == 308
