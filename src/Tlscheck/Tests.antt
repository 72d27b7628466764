-- ===== src/Tlscheck/Tests.antt =====
-- Certificates that are good, over, or shown by the diagnostic only (internal/tlscheck/inspector.go).
use domains_checker_infomati.Base.{
  ℕ, ◌*◌, [], ◌∷◌, Option, none, some, Bool, true, false, ◌≡◌, refl, str_eq, length,
}
use domains_checker_infomati.Base.Int.{ℤ, pos, ◌-ℤ◌}
use domains_checker_infomati.Base.Text.{codes, lower}
use domains_checker_infomati.Netcheck.{Code, ContextState, error_text, code_text, new}
use domains_checker_infomati.Status.{TlsStatus}
use domains_checker_infomati.Tlscheck.{
  Certificate, ConnectionState, Inspector, Inspection, connection, verified, broken, World,
  add_names, certificate_sans, graded_certificate, described, from_connection_state,
  classify_handshake, classify_tls_failure, normalized_inspector, diagnostic, explained,
  inspect_dialed, inspect,
}
use domains_checker_infomati.Tlscheck.Trusted.{is_good, IsTrusted, inspect-IsTrusted}

abbrev days : ℕ → ℤ
days n = pos (n * (24 * 3600000000000))

abbrev certificate : Certificate
certificate = record {
  subject = "CN=example.com";
  issuer = "CN=Test";
  serial_hash = none;
  not_before = days 0;
  not_after = days 90;
  covers = λ name. str_eq name "example.com";
  dns_names = codes "Example.COM" ∷ codes "www.example.com" ∷ [];
  ip_addresses = [];
}

abbrev inspector : Inspector
inspector = record { expiring_soon = pos 0; max_sans = pos 1 }

abbrev chained : ℕ → ConnectionState
chained chains = record {
  version_name = "TLS 1.3";
  cipher_name = "TLS_AES_128_GCM_SHA256";
  verified_chains = chains;
  peer_certificates = certificate ∷ [];
}

abbrev day_70 : World
day_70 = record {
  now = days 70;
  parent = ContextState.live;
  handshake_context = ContextState.live;
  dialed = connection "192.0.2.1:443";
  handshake = verified (chained 1);
  unverified = none;
}

abbrev brief : Inspection → TlsStatus × Code × Bool × Option ℤ × ℕ
brief r = (r.status, r.error_code, r.diagnostic_only, r.expiration_days, length r.sans)

expiring_lem :
    brief (inspect inspector "example.com" day_70)
    ≡ (TlsStatus.expiring, Code.no_code, false, some (pos 20), 1)
unfolding inspect inspect_dialed from_connection_state described graded_certificate certificate_sans
    add_names normalized_inspector lower ◌-ℤ◌
expiring_lem = refl

-- The chain is of an authority that nobody knows.
abbrev unknown_chain : World
unknown_chain = record day_70 {
  handshake = broken (record {
    failure = record {
      check = none;
      canceled = false;
      deadline_exceeded = false;
      refused = false;
      reset = false;
      broken_pipe = false;
      net_timeout = false;
      op_temporary = none;
      syscall = false;
      text = "x509: certificate signed by unknown authority";
    };
    hostname = false;
    invalid = none;
    unknown_authority = true;
  });
  unverified = some (chained 0);
}

unknown_chain_lem :
    brief (inspect inspector "example.com" unknown_chain)
    ≡ (TlsStatus.invalid, Code.tls_unknown_authority, true, some (pos 20), 1)
unfolding inspect inspect_dialed explained diagnostic classify_tls_failure classify_handshake
    from_connection_state described graded_certificate certificate_sans add_names
    normalized_inspector lower error_text new code_text ◌-ℤ◌
unknown_chain_lem = refl

day_70_lem : is_good (inspect inspector "example.com" day_70).status ≡ true
unfolding inspect inspect_dialed from_connection_state described graded_certificate certificate_sans
    add_names normalized_inspector lower ◌-ℤ◌
day_70_lem = refl

inspect-IsTrusted_example :
    IsTrusted inspector "example.com" day_70 (inspect inspector "example.com" day_70)
inspect-IsTrusted_example = inspect-IsTrusted inspector "example.com" day_70 day_70_lem
