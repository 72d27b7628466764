-- ===== src/Http/Config.antt =====
-- internal/httpcheck/checker.go: the configuration and its defaults. Durations are int64
-- nanoseconds.
pub mod Normal
use domains_checker_infomati.Base.{
  ℕ, String, if◌then◌else◌, str_eq, Bool, true, false, ◌≡◌, ◌≢◌, arith, eq_iff,
}
use domains_checker_infomati.Base.Int.{ℤ, pos, ltb_ℤ, leb_ℤ, ◌≤ℤ◌}
use domains_checker_infomati.Retry.{Policy, normalized}

pub record Config : Type 0 where
  pub max_redirects : ℤ
  pub max_body_bytes : ℤ
  pub excerpt_bytes : ℤ
  pub header_bytes : ℤ
  pub min_meaningful_bytes : ℤ
  pub connect_timeout : ℤ
  pub tls_handshake_timeout : ℤ
  pub response_header_timeout : ℤ
  pub chain_timeout : ℤ
  pub tls_expiring_soon : ℤ
  pub max_certificate_sans : ℤ
  pub user_agent : String
  pub accept : String
  pub accept_language : String
  pub retry : Policy

abbrev pub or_default : ℤ → ℕ → ℤ
or_default value default = if leb_ℤ value (pos 0) then pos default else value

abbrev pub or_text : String → String → String
or_text value default = if str_eq value "" then default else value

-- `normalizeConfig`.
unfoldable pub normalize_config : Config → Config
normalize_config c =
    let excerpt = or_default c.excerpt_bytes 32_768 in
    record {
      max_redirects = or_default c.max_redirects 10;
      max_body_bytes = or_default c.max_body_bytes 2_097_152;
      excerpt_bytes = if ltb_ℤ (pos 65_536) excerpt then pos 65_536 else excerpt;
      header_bytes = or_default c.header_bytes 16_384;
      min_meaningful_bytes = or_default c.min_meaningful_bytes 64;
      connect_timeout = or_default c.connect_timeout 5_000_000_000;
      tls_handshake_timeout = or_default c.tls_handshake_timeout 7_000_000_000;
      response_header_timeout = or_default c.response_header_timeout 10_000_000_000;
      chain_timeout = or_default c.chain_timeout 25_000_000_000;
      tls_expiring_soon = or_default c.tls_expiring_soon 2_592_000_000_000_000;
      max_certificate_sans = or_default c.max_certificate_sans 100;
      user_agent = or_text c.user_agent "DomainMonitor/phase3";
      accept = or_text c.accept "text/html,application/xhtml+xml,application/json;q=0.8,*/*;q=0.5";
      accept_language = or_text c.accept_language "th,en;q=0.8";
      retry = normalized c.retry;
    }
