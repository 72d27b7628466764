-- ===== src/Http/Config/Normal.antt =====
-- What the defaults of the configuration guarantee (internal/httpcheck/checker.go).
use mathlib.Core.Bool.{true≢false}
use domains_checker_infomati.Base.{
  sym, ◌∙◌, ◌≤◌, ℕ, String, ◌≡◌, ◌≢◌, refl, arith, eq_iff, str_eq, if◌then◌else◌, Bool-cases, inl,
  inr, false,
}
use domains_checker_infomati.Base.Int.{ℤ, pos, ◌≤ℤ◌, ltb_ℤ}
use domains_checker_infomati.Retry.Delay.{IsNormal, normalized-IsNormal}
use domains_checker_infomati.Http.Config.{Config, or_default, or_text, normalize_config}

-- Limits and timeouts are positive, the excerpt has at most 64 KiB, the headers of a request are set,
-- and the policy is in normal form.
pub record IsUsable (c : Config) : Type 0 where
  pub redirects : pos 1 ≤ℤ c.max_redirects
  pub body : pos 1 ≤ℤ c.max_body_bytes
  pub excerpt : pos 1 ≤ℤ c.excerpt_bytes
  pub excerpt_most : c.excerpt_bytes ≤ℤ pos 65_536
  pub headers : pos 1 ≤ℤ c.header_bytes
  pub meaningful : pos 1 ≤ℤ c.min_meaningful_bytes
  pub connect : pos 1 ≤ℤ c.connect_timeout
  pub handshake : pos 1 ≤ℤ c.tls_handshake_timeout
  pub response : pos 1 ≤ℤ c.response_header_timeout
  pub chain : pos 1 ≤ℤ c.chain_timeout
  pub soon : pos 1 ≤ℤ c.tls_expiring_soon
  pub sans : pos 1 ≤ℤ c.max_certificate_sans
  pub agent : c.user_agent ≢ ""
  pub accepts : c.accept ≢ ""
  pub language : c.accept_language ≢ ""
  pub policy : IsNormal c.retry

defaulted : (v : ℤ) (d : ℕ) → 1 ≤ d → pos 1 ≤ℤ or_default v d
defaulted v d h = ground arith

clipped :
    (v : ℤ)
    → pos 1 ≤ℤ v
    → let e = if ltb_ℤ (pos 65_536) v then pos 65_536 else v in (pos 1 ≤ℤ e) × (e ≤ℤ pos 65_536)
clipped v h = ground arith

filled : (t : String) → str_eq t "" ≡ false → t ≢ ""
filled t h k = true≢false (sym ((eq_iff t "").1 k) ∙ h)

given : (t d : String) → str_eq d "" ≡ false → or_text t d ≢ ""
given t d h = elim (Bool-cases (str_eq t "")) [
  | inl e ↦ rw e (filled d h)
  | inr e ↦ rw e (filled t e)
]

-- Whatever is configured, the checker works with positive limits and timeouts, an excerpt of at most
-- 64 KiB, request headers that are set and a retry policy in normal form.
pub normalize_config-IsUsable : (c : Config) → IsUsable (normalize_config c)
unfolding normalize_config
normalize_config-IsUsable c =
    let e =
      clipped (or_default c.excerpt_bytes 32_768)
        (defaulted c.excerpt_bytes 32_768 (omega arith)) in
    record {
      redirects = defaulted c.max_redirects 10 (omega arith);
      body = defaulted c.max_body_bytes 2_097_152 (omega arith);
      excerpt = e.0;
      excerpt_most = e.1;
      headers = defaulted c.header_bytes 16_384 (omega arith);
      meaningful = defaulted c.min_meaningful_bytes 64 (omega arith);
      connect = defaulted c.connect_timeout 5_000_000_000 (omega arith);
      handshake = defaulted c.tls_handshake_timeout 7_000_000_000 (omega arith);
      response = defaulted c.response_header_timeout 10_000_000_000 (omega arith);
      chain = defaulted c.chain_timeout 25_000_000_000 (omega arith);
      soon = defaulted c.tls_expiring_soon 2_592_000_000_000_000 (omega arith);
      sans = defaulted c.max_certificate_sans 100 (omega arith);
      agent = given c.user_agent "DomainMonitor/phase3" refl;
      accepts =
          given c.accept "text/html,application/xhtml+xml,application/json;q=0.8,*/*;q=0.5" refl;
      language = given c.accept_language "th,en;q=0.8" refl;
      policy = normalized-IsNormal c.retry;
    }
