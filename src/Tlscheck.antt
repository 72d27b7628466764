-- ===== src/Tlscheck.antt =====
-- internal/tlscheck/inspector.go: the inspection of the certificate of a server. Times and durations are
-- in nanoseconds. What the network and the handshakes answer, what x509 and tls say of a certificate and
-- of a connection, and the states of the contexts at that time are parameters.
pub mod Trusted
mod Tests
use domains_checker_infomati.Base.{
  ℕ, zero, suc, ◌+◌, ◌*◌, ◌/◌, String, List, [], ◌∷◌, ◌++◌, Option, none, some, Bool, true, false,
  not, ◌&&◌, ◌||◌, if◌then◌else◌, ◌==◌, leb, ltb, length, str_eq,
}
use domains_checker_infomati.Base.Int.{ℤ, pos, negsuc, ltb_ℤ, leb_ℤ, ◌-ℤ◌, pos_part}
use domains_checker_infomati.Base.Text.{Text, to_lower}
use domains_checker_infomati.Netcheck.{
  Code, Error, new, error_text, Failure, ContextState, is_canceled, is_expired, classify_tcp,
}
use domains_checker_infomati.Status.{TlsStatus}

-- An X.509 certificate; `covers` is `VerifyHostname`, the addresses are printed.
pub record Certificate : Type 0 where
  pub subject : String
  pub issuer : String
  pub serial_hash : Option String
  pub not_before : ℤ
  pub not_after : ℤ
  pub covers : String → Bool
  pub dns_names : List Text
  pub ip_addresses : List Text

-- `tls.ConnectionState`, with the names of its version and cipher suite.
pub record ConnectionState : Type 0 where
  pub version_name : String
  pub cipher_name : String
  pub verified_chains : ℕ
  pub peer_certificates : List Certificate

pub record Inspection : Type 0 where
  pub server_name : String
  pub remote_address : String
  pub tls_version : String
  pub cipher_suite : String
  pub certificate_subject : String
  pub certificate_issuer : String
  pub serial_hash : Option String
  pub sans : List Text
  pub valid_from : Option ℤ
  pub valid_until : Option ℤ
  pub expiration_days : Option ℤ
  pub hostname_valid : Option Bool
  pub chain_valid : Bool
  pub status : TlsStatus
  pub diagnostic_only : Bool
  pub error_code : Code
  pub error_message : String
  pub checked_at : ℤ

abbrev pub thirty_days : ℤ
thirty_days = pos (30 * 24 * 3600000000000)

abbrev pub or_positive : ℤ → ℤ → ℤ
or_positive value fallback = if leb_ℤ value (pos 0) then fallback else value

-- The first loop that reaches the limit returns.
unfoldable pub add_names : ℕ → List Text → List Text → List Text × Bool
add_names most values [] = (values, false)
add_names most values (name ∷ names) =
    let rest = add_names most (values ++ name ∷ []) names in
    if leb most (length (values ++ name ∷ [])) then (values ++ name ∷ [], true) else rest

abbrev pub lowered : List Text → List Text
lowered [] = []
lowered (name ∷ names) = to_lower name ∷ lowered names

unfoldable pub certificate_sans : Certificate → ℕ → List Text
certificate_sans c most =
    let (names, full) = add_names most [] (lowered c.dns_names) in
    if full then names else (add_names most names c.ip_addresses).0

-- `math.Floor` of the days until then.
abbrev pub floor_days : ℤ → ℤ
floor_days (pos n) = pos (n / (24 * 3600000000000))
floor_days (negsuc n) = negsuc (n / (24 * 3600000000000))

-- The status by the dates and the name of the certificate.
unfoldable pub graded_certificate : Certificate → String → ℤ → ℤ → Inspection → Inspection
graded_certificate c server_name expiring_soon now r =
    if ltb_ℤ c.not_after now
    then record r { status = TlsStatus.expired; error_code = Code.tls_expired }
    else if not (c.covers server_name)
    then record r { status = TlsStatus.hostname_mismatch; error_code = Code.tls_hostname }
    else if leb_ℤ (c.not_after -ℤ now) expiring_soon
    then record r { status = TlsStatus.expiring }
    else r

abbrev pub connected : ConnectionState → String → ℤ → Inspection
connected state server_name now = record {
  server_name = server_name;
  remote_address = "";
  tls_version = state.version_name;
  cipher_suite = state.cipher_name;
  certificate_subject = "";
  certificate_issuer = "";
  serial_hash = none;
  sans = [];
  valid_from = none;
  valid_until = none;
  expiration_days = none;
  hostname_valid = none;
  chain_valid = ltb 0 state.verified_chains;
  status = TlsStatus.valid;
  diagnostic_only = state.verified_chains == 0;
  error_code = Code.no_code;
  error_message = "";
  checked_at = now;
}

unfoldable pub described : List Certificate → String → ℤ → ℤ → ℕ → Inspection → Inspection
described [] server_name expiring_soon now most r = record r {
  status = TlsStatus.error;
  error_code = Code.tls_handshake;
  error_message = "TLS peer did not present a certificate";
}
described (c ∷ chain) server_name expiring_soon now most r =
    graded_certificate c server_name expiring_soon now (record r {
      certificate_subject = c.subject;
      certificate_issuer = c.issuer;
      serial_hash = c.serial_hash;
      valid_from = some c.not_before;
      valid_until = some c.not_after;
      expiration_days = some (floor_days (c.not_after -ℤ now));
      hostname_valid = some (c.covers server_name);
      sans = certificate_sans c most;
    })

-- `FromConnectionState`.
unfoldable pub from_connection_state : ConnectionState → String → ℤ → ℤ → ℤ → Inspection
from_connection_state state server_name expiring_soon now max_sans =
    described state.peer_certificates server_name (or_positive expiring_soon thirty_days) now
      (pos_part (or_positive max_sans (pos 100))) (connected state server_name now)

-- The error of a handshake: what `errors.As` finds beside the network's part. Of a certificate that is
-- invalid, whether the reason is `Expired`, and its last day where it is known.
pub record HandshakeFailure : Type 0 where
  pub failure : Failure
  pub hostname : Bool
  pub invalid : Option (Bool × Option ℤ)
  pub unknown_authority : Bool

unfoldable pub invalid_certificate : Bool × Option ℤ → ℤ → String → Error × TlsStatus
invalid_certificate (expired, none) now text =
    (new Code.tls_handshake "tls" "verify certificate" false (some text), TlsStatus.invalid)
invalid_certificate (expired, some not_after) now text =
    if expired && ltb_ℤ not_after now
    then (new Code.tls_expired "tls" "verify certificate" false (some text), TlsStatus.expired)
    else (new Code.tls_handshake "tls" "verify certificate" false (some text), TlsStatus.invalid)

-- The rest of `classifyTLSFailure`, where no context explains the error; both of its last returns are
-- the same.
unfoldable pub classify_handshake : HandshakeFailure → ℤ → Error × TlsStatus
classify_handshake f now =
    if f.hostname
    then (
      new Code.tls_hostname "tls" "verify hostname" false (some f.failure.text),
      TlsStatus.hostname_mismatch,
    )
    else elim f.invalid [
      | some reason ↦ invalid_certificate reason now f.failure.text
      | none ↦
          if f.unknown_authority
          then (
            new Code.tls_unknown_authority "tls" "verify chain" false (some f.failure.text),
            TlsStatus.invalid,
          )
          else (
            new Code.tls_handshake "tls" "handshake" true (some f.failure.text),
            TlsStatus.error,
          )
    ]

-- `classifyTLSFailure`.
unfoldable pub classify_tls_failure :
    ContextState → ContextState → HandshakeFailure → ℤ → Error × TlsStatus
classify_tls_failure parent handshake f now =
    if is_canceled parent
    then (new Code.run_cancelled "tls" "handshake" false (some "context canceled"), TlsStatus.error)
    else if is_expired parent
    then (
      new Code.run_deadline_exceeded "tls" "handshake" false (some "context deadline exceeded"),
      TlsStatus.error,
    )
    else if is_expired handshake || f.failure.deadline_exceeded
    then (
      new Code.tls_handshake "tls" "handshake" true (some "context deadline exceeded"),
      TlsStatus.error,
    )
    else classify_handshake f now

-- The fields of `Inspector` that its results depend on.
pub record Inspector : Type 0 where
  pub expiring_soon : ℤ
  pub max_sans : ℤ

unfoldable pub normalized_inspector : Inspector → Inspector
normalized_inspector i = record {
  expiring_soon = or_positive i.expiring_soon thirty_days;
  max_sans = or_positive i.max_sans (pos 100);
}

pub data Dialed : Type 0 where
  connection : String → Dialed
  refused : Failure → Dialed

pub data Handshake : Type 0 where
  verified : ConnectionState → Handshake
  broken : HandshakeFailure → Handshake

-- The answers to one inspection; `unverified` is the connection of the diagnostic, where it succeeds.
pub record World : Type 0 where
  pub now : ℤ
  pub parent : ContextState
  pub handshake_context : ContextState
  pub dialed : Dialed
  pub handshake : Handshake
  pub unverified : Option ConnectionState

abbrev pub unknown_result : String → ℤ → Inspection
unknown_result server_name now =
    record (connected
      (record { version_name = ""; cipher_name = ""; verified_chains = 1; peer_certificates = [] })
      server_name now) { chain_valid = false; status = TlsStatus.unknown }

abbrev pub reported : Error → TlsStatus → Inspection → Inspection
reported e status r = record r {
  status = status;
  error_code = e.code;
  error_message = error_text e;
}

unfoldable pub diagnostic : Inspector → String → String → World → Inspection
diagnostic i server_name address w = elim w.unverified [
  | none ↦ record (unknown_result server_name w.now) {
    remote_address = address;
    diagnostic_only = true;
  }
  | some state ↦ record (from_connection_state state server_name i.expiring_soon w.now i.max_sans) {
    remote_address = address;
    diagnostic_only = true;
    chain_valid = false;
    status = TlsStatus.invalid;
  }
]

abbrev pub is_unknown_tls : TlsStatus → Bool
is_unknown_tls TlsStatus.unknown = true
is_unknown_tls _ = false

-- After a handshake that failed: the certificate of the diagnostic with the error of the handshake.
unfoldable pub explained : Inspection → Error × TlsStatus → Inspection → Inspection
explained found (e, status) r =
    if is_unknown_tls found.status
    then reported e status r
    else record (reported e status found) { chain_valid = false; diagnostic_only = true }

-- `Inspect` after the dial, from the answer to it and to the handshake.
unfoldable pub inspect_dialed : Inspector → String → World → Dialed → Handshake → Inspection
inspect_dialed i server_name w (refused f) handshake =
    reported (classify_tcp w.handshake_context "TLS dial" f) TlsStatus.error
      (unknown_result server_name w.now)
inspect_dialed i server_name w (connection address) (verified state) =
    record (from_connection_state state server_name i.expiring_soon w.now i.max_sans) {
      remote_address = address;
      checked_at = w.now;
    }
inspect_dialed i server_name w (connection address) (broken f) =
    explained (diagnostic i server_name address w)
      (classify_tls_failure w.parent w.handshake_context f w.now)
      (record (unknown_result server_name w.now) { remote_address = address })

unfoldable pub inspect : Inspector → String → World → Inspection
inspect i server_name w = inspect_dialed (normalized_inspector i) server_name w w.dialed w.handshake
