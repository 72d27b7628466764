-- ===== src/Netcheck.antt =====
-- internal/netcheck/errors.go: the taxonomy of failures that every checker reports with.
-- `error` values of the standard library are modelled by what `errors.Is` and `errors.As` answer.
pub mod Classify
mod Tests
use Prim.Native.String.{◌++◌ as append}
use domains_checker_infomati.Base.{
  String, Bool, true, false, ◌||◌, Option, none, some, if◌then◌else◌, str_eq,
}

-- `Code`; `no_code` is the empty string, which stands for "no error".
pub data Code : Type 0 where
  no_code normalization_invalid : Code
  dns_nxdomain dns_servfail dns_refused dns_timeout dns_network_error : Code
  dns_malformed_response dns_cname_loop dns_cname_limit : Code
  tcp_timeout tcp_refused tcp_reset tcp_network_error : Code
  tls_expired tls_hostname tls_unknown_authority tls_handshake : Code
  http_timeout http_body_read http_4xx http_5xx : Code
  http_redirect_loop http_redirect_limit http_malformed_location http_https_downgrade : Code
  content_empty content_too_small content_not_meaningful content_too_large : Code
  content_unsupported ssrf_blocked_address ssrf_blocked_port : Code
  remote_probe_unavailable remote_probe_stale remote_probe_invalid_signature : Code
  run_cancelled run_deadline_exceeded internal_persistence_error : Code

unfoldable pub Code-discrete : Discrete Code
Code-discrete = hlevel

-- The text of a code, as it is stored and matched by prefix.
unfoldable pub code_text : Code → String
code_text Code.no_code = ""
code_text Code.normalization_invalid = "NORMALIZATION_INVALID"
code_text Code.dns_nxdomain = "DNS_NXDOMAIN"
code_text Code.dns_servfail = "DNS_SERVFAIL"
code_text Code.dns_refused = "DNS_REFUSED"
code_text Code.dns_timeout = "DNS_TIMEOUT"
code_text Code.dns_network_error = "DNS_NETWORK_ERROR"
code_text Code.dns_malformed_response = "DNS_MALFORMED_RESPONSE"
code_text Code.dns_cname_loop = "DNS_CNAME_LOOP"
code_text Code.dns_cname_limit = "DNS_CNAME_LIMIT"
code_text Code.tcp_timeout = "TCP_TIMEOUT"
code_text Code.tcp_refused = "TCP_REFUSED"
code_text Code.tcp_reset = "TCP_RESET"
code_text Code.tcp_network_error = "TCP_NETWORK_ERROR"
code_text Code.tls_expired = "TLS_EXPIRED"
code_text Code.tls_hostname = "TLS_HOSTNAME"
code_text Code.tls_unknown_authority = "TLS_UNKNOWN_AUTHORITY"
code_text Code.tls_handshake = "TLS_HANDSHAKE"
code_text Code.http_timeout = "HTTP_TIMEOUT"
code_text Code.http_body_read = "HTTP_BODY_READ"
code_text Code.http_4xx = "HTTP_4XX"
code_text Code.http_5xx = "HTTP_5XX"
code_text Code.http_redirect_loop = "HTTP_REDIRECT_LOOP"
code_text Code.http_redirect_limit = "HTTP_REDIRECT_LIMIT"
code_text Code.http_malformed_location = "HTTP_MALFORMED_LOCATION"
code_text Code.http_https_downgrade = "HTTP_HTTPS_DOWNGRADE"
code_text Code.content_empty = "CONTENT_EMPTY"
code_text Code.content_too_small = "CONTENT_TOO_SMALL"
code_text Code.content_not_meaningful = "CONTENT_NOT_MEANINGFUL"
code_text Code.content_too_large = "CONTENT_TOO_LARGE"
code_text Code.content_unsupported = "CONTENT_UNSUPPORTED"
code_text Code.ssrf_blocked_address = "SSRF_BLOCKED_ADDRESS"
code_text Code.ssrf_blocked_port = "SSRF_BLOCKED_PORT"
code_text Code.remote_probe_unavailable = "REMOTE_PROBE_UNAVAILABLE"
code_text Code.remote_probe_stale = "REMOTE_PROBE_STALE"
code_text Code.remote_probe_invalid_signature = "REMOTE_PROBE_INVALID_SIGNATURE"
code_text Code.run_cancelled = "RUN_CANCELLED"
code_text Code.run_deadline_exceeded = "RUN_DEADLINE_EXCEEDED"
code_text Code.internal_persistence_error = "INTERNAL_PERSISTENCE_ERROR"

-- `Error`; the cause is kept as its text.
pub record Error : Type 0 where
  pub code : Code
  pub stage : String
  pub operation : String
  pub retryable : Bool
  pub cause : Option String

unfoldable pub new : Code → String → String → Bool → Option String → Error
new code stage operation retryable cause = record {
  code = code;
  stage = stage;
  operation = operation;
  retryable = retryable;
  cause = cause;
}

with_cause : Option String → String → String
with_cause none message = message
with_cause (some cause) message = append (append message ": ") cause

-- `Error()` on an error that is not nil.
unfoldable pub error_text : Error → String
unfolding with_cause code_text
error_text e =
    let message = code_text e.code in
    with_cause e.cause
      (if str_eq e.operation "" then message else append (append message " during ") e.operation)

-- An `error`: what `errors.As` and `errors.Is` find in its chain, and its text.
pub record Failure : Type 0 where
  pub check : Option Error
  pub canceled : Bool
  pub deadline_exceeded : Bool
  pub refused : Bool
  pub reset : Bool
  pub broken_pipe : Bool
  pub net_timeout : Bool
  pub op_temporary : Option Bool
  pub syscall : Bool
  pub text : String

-- `ctx.Err()`.
pub data ContextState : Type 0 where
  live canceled deadline_exceeded : ContextState

-- `IsRetryable`.
unfoldable pub is_retryable : Failure → Bool
is_retryable f = elim f.check [ none ↦ false | some e ↦ e.retryable ]

abbrev pub is_canceled : ContextState → Bool
is_canceled ContextState.canceled = true
is_canceled _ = false

abbrev pub is_expired : ContextState → Bool
is_expired ContextState.deadline_exceeded = true
is_expired _ = false

-- `FromContext`; `none` is nil.
unfoldable pub from_context : ContextState → String → String → Code → Failure → Option Error
unfolding new
from_context ctx stage operation timeout_code f =
    if f.canceled || is_canceled ctx
    then some (new Code.run_cancelled stage operation false (some "context canceled"))
    else if f.deadline_exceeded
    then some (new timeout_code stage operation true (some "context deadline exceeded"))
    else if is_expired ctx
    then some
        (new Code.run_deadline_exceeded stage operation false (some "context deadline exceeded"))
    else none

-- The tail of `ClassifyTCP`, where the context explains nothing.
transport_error : String → Failure → Error
unfolding new
transport_error operation f =
    if f.refused
    then new Code.tcp_refused "tcp" operation true (some f.text)
    else if f.reset || f.broken_pipe
    then new Code.tcp_reset "tcp" operation true (some f.text)
    else if f.net_timeout
    then new Code.tcp_timeout "tcp" operation true (some f.text)
    else elim f.op_temporary [
      | some temporary ↦ new Code.tcp_network_error "tcp" operation temporary (some f.text)
      | none ↦
          if f.syscall
          then new Code.tcp_network_error "tcp" operation true (some f.text)
          else new Code.tcp_network_error "tcp" operation false
              (some (append "transport failure: " f.text))
    ]

-- `ClassifyTCP`.
unfoldable pub classify_tcp : ContextState → String → Failure → Error
unfolding from_context transport_error
classify_tcp ctx operation f = elim (from_context ctx "tcp" operation Code.tcp_timeout f) [
  | some classified ↦ classified
  | none ↦ transport_error operation f
]
