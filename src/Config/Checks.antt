-- ===== src/Config/Checks.antt =====
-- The checks of `Load` in internal/config/config.go and `Load` itself. URLs are parsed by the standard
-- library, as is the base64 of the encryption key.
use domains_checker_infomati.Base.{
  ℕ, String, List, Option, none, some, Bool, true, not, ◌&&◌, ◌||◌, if◌then◌else◌, str_eq, ltb,
  length, ◌==◌,
}
use domains_checker_infomati.Base.Int.{ℤ, pos, ltb_ℤ, leb_ℤ}
use domains_checker_infomati.Base.Text.{codes, trim_space, byte_length, text_eq}
use domains_checker_infomati.Base.Outcome.{Outcome, ok, ◌>>=◌, ◌>>◌, reject}
use domains_checker_infomati.Config.Settings.{Config}
use domains_checker_infomati.Config.Sources.{load_texts, load_limits, load_flags}
use domains_checker_infomati.Config.Timers.{load_server, load_monitor, load_probe, load_lookup}

-- What the checks read of a parsed URL.
pub record Link : Type 0 where
  pub scheme : String
  pub hostname : String
  pub has_user : Bool

-- `value < low || value > high`.
abbrev pub outside : ℕ → ℕ → ℤ → Bool
outside low high value = ltb_ℤ value (pos low) || ltb_ℤ (pos high) value

-- `strings.TrimSpace(value) == "" || len(value) > most`.
abbrev pub bad_length : ℕ → String → Bool
bad_length most value = str_eq (trim_space value) "" || ltb most (byte_length (codes value))

abbrev pub blank : String → Bool
blank value = str_eq (trim_space value) ""

abbrev pub oauth_configured : Config → Bool
oauth_configured c =
    not (blank c.texts.google_oauth_client_id)
    || not (blank c.texts.google_oauth_client_secret)
    || not (blank c.texts.google_oauth_redirect_url)
    || not (blank c.texts.google_oauth_encryption_key)

unfoldable pub bad_key : (String → Option (List ℕ)) → String → Bool
bad_key decode_base64 raw = elim (decode_base64 raw) [
  | none ↦ true
  | some key ↦ not (length key == 32)
]

module _ (parse_url : String → Option Link) where
  -- The URL does not parse, is not HTTPS or has no host.
  unfoldable pub not_https : String → Bool
  not_https raw = elim (parse_url raw) [
    | none ↦ true
    | some link ↦ not (str_eq link.scheme "https") || str_eq link.hostname ""
  ]

  -- The same, or with credentials.
  unfoldable pub not_public : String → Bool
  not_public raw = elim (parse_url raw) [
    | none ↦ true
    | some link ↦ not (str_eq link.scheme "https") || str_eq link.hostname "" || link.has_user
  ]

  unfoldable pub bad_redirect : String → Bool
  bad_redirect raw = elim (parse_url raw) [
    | none ↦ true
    | some link ↦
        str_eq link.hostname ""
        || (not (str_eq link.scheme "https")
            && not (
                str_eq link.scheme "http"
                && (str_eq link.hostname "localhost" || str_eq link.hostname "127.0.0.1")))
  ]

  unfoldable pub check_service : Config → Outcome (Unit {0})
  check_service c = do
    reject
        (not (text_eq c.texts.default_locale (codes "th"))
          && not (text_eq c.texts.default_locale (codes "en")))
        "DEFAULT_LOCALE must be th or en"
    reject
        (leb_ℤ c.limits.db_max_connections (pos 0)
          || ltb_ℤ c.limits.db_min_connections (pos 0)
          || ltb_ℤ c.limits.db_max_connections c.limits.db_min_connections)
        "invalid PostgreSQL connection pool limits"
    reject (outside 1024 10485760 c.limits.api_max_body_bytes)
        "API_MAX_BODY_BYTES must be between 1024 and 10485760"
    reject (outside 1 1000 c.limits.outbox_batch_size)
        "OUTBOX_BATCH_SIZE must be between 1 and 1000"
    reject (outside 1 100 c.limits.outbox_max_attempts)
        "OUTBOX_MAX_ATTEMPTS must be between 1 and 100"
    reject (not_https c.texts.doh_endpoint) "CLOUDFLARE_DOH_ENDPOINT must be an absolute HTTPS URL"
    reject (outside 4096 1048576 c.limits.doh_max_bytes)
        "DOH_MAX_RESPONSE_BYTES must be between 4096 and 1048576"

  unfoldable pub check_http : Config → Outcome (Unit {0})
  check_http c = do
    reject (outside 1 20 c.limits.http_max_redirects)
        "MONITOR_MAX_REDIRECTS must be between 1 and 20"
    reject (outside 1024 16777216 c.limits.http_max_body_bytes)
        "MONITOR_MAX_BODY_BYTES must be between 1024 and 16777216"
    reject
        (outside 0 65536 c.limits.http_excerpt_bytes
          || ltb_ℤ c.limits.http_max_body_bytes c.limits.http_excerpt_bytes)
        "MONITOR_EXCERPT_BYTES must be between 0 and 65536 and not exceed MONITOR_MAX_BODY_BYTES"
    reject (outside 1024 65536 c.limits.http_header_bytes)
        "MONITOR_HEADER_BYTES must be between 1024 and 65536"
    reject
        (ltb_ℤ c.limits.http_min_body_bytes (pos 1)
          || ltb_ℤ c.limits.http_max_body_bytes c.limits.http_min_body_bytes)
        "MONITOR_MIN_BODY_BYTES must be positive and not exceed MONITOR_MAX_BODY_BYTES"
    reject (outside 1 20 c.limits.monitor_max_attempts)
        "MONITOR_MAX_ATTEMPTS must be between 1 and 20"
    reject (ltb_ℤ c.monitor.retry_max_delay c.monitor.retry_base_delay)
        "MONITOR_RETRY_MAX_DELAY must be greater than or equal to MONITOR_RETRY_BASE_DELAY"

  unfoldable pub check_monitor : Config → Outcome (Unit {0})
  check_monitor c = do
    reject (bad_length 200 c.texts.monitor_user_agent)
        "MONITOR_USER_AGENT must be between 1 and 200 characters"
    reject (bad_length 100 c.texts.monitor_policy_version)
        "MONITOR_POLICY_VERSION must be between 1 and 100 characters"
    reject (bad_length 200 c.texts.monitor_queue_group)
        "MONITOR_QUEUE_GROUP must be between 1 and 200 characters"
    reject (outside 1 500 c.limits.monitor_workers) "MONITOR_WORKERS must be between 1 and 500"
    reject (outside 1 1000 c.limits.scheduler_batch_size)
        "SCHEDULER_BATCH_SIZE must be between 1 and 1000"
    reject (outside 1 100 c.limits.incident_open_failures)
        "INCIDENT_OPEN_FAILURES must be between 1 and 100"
    reject (outside 1 100 c.limits.incident_close_success)
        "INCIDENT_CLOSE_SUCCESSES must be between 1 and 100"

  unfoldable pub check_probe : Config → Outcome (Unit {0})
  check_probe c = do
    reject (outside 1 1000 c.limits.probe_dispatch_batch)
        "PROBE_DISPATCH_BATCH must be between 1 and 1000"
    reject
        (ltb (byte_length c.texts.probe_required_region) 2
          || ltb 16 (byte_length c.texts.probe_required_region))
        "PROBE_REQUIRED_REGION must be between 2 and 16 characters"
    reject (outside 4096 10485760 c.limits.probe_max_payload_bytes)
        "PROBE_MAX_PAYLOAD_BYTES must be between 4096 and 10485760"
    reject (leb_ℤ c.probe.probe_job_ttl c.probe.probe_job_lease)
        "PROBE_JOB_LEASE must be shorter than PROBE_JOB_TTL"

  unfoldable pub check_sources : Config → Outcome (Unit {0})
  check_sources c = do
    reject (not_public c.texts.rdap_bootstrap_url)
        "RDAP_BOOTSTRAP_URL must be an absolute HTTPS URL"
    reject (not_public c.texts.google_sheets_api_base)
        "GOOGLE_SHEETS_API_BASE must be an absolute HTTPS URL"
    reject (outside 4096 4194304 c.limits.rdap_max_bytes)
        "RDAP_MAX_RESPONSE_BYTES must be between 4096 and 4194304"
    reject (outside 4096 16777216 c.limits.google_sheets_max_bytes)
        "GOOGLE_SHEETS_MAX_RESPONSE_BYTES must be between 4096 and 16777216"
    reject (not_public c.texts.google_drive_api_base)
        "GOOGLE_DRIVE_API_BASE must be an absolute HTTPS URL"
    reject (outside 1048576 52428800 c.limits.excel_import_max_bytes)
        "EXCEL_IMPORT_MAX_BYTES must be between 1048576 and 52428800"
    reject
        (ltb_ℤ c.limits.excel_unzip_max_bytes c.limits.excel_import_max_bytes
          || ltb_ℤ (pos 268435456) c.limits.excel_unzip_max_bytes)
        "EXCEL_IMPORT_MAX_UNCOMPRESSED_BYTES must be at least EXCEL_IMPORT_MAX_BYTES and at most 268435456"
    reject
        (outside 1 100000 c.limits.excel_import_max_rows
          || outside 1 500 c.limits.excel_import_max_columns)
        "invalid Excel import row or column limit"

  module _ (decode_base64 : String → Option (List ℕ)) where
    -- The three URLs stand in a map, so which of them is named first is open in the source.
    unfoldable pub check_oauth_values : Config → Outcome (Unit {0})
    check_oauth_values c = do
      reject
          (blank c.texts.google_oauth_client_id
            || blank c.texts.google_oauth_client_secret
            || blank c.texts.google_oauth_redirect_url
            || blank c.texts.google_oauth_encryption_key)
          "Google OAuth client ID, secret, redirect URL and encryption key must be configured together"
      reject (not_public c.texts.google_oauth_auth_url)
          "GOOGLE_OAUTH_AUTH_URL must be an absolute HTTPS URL"
      reject (not_public c.texts.google_oauth_token_url)
          "GOOGLE_OAUTH_TOKEN_URL must be an absolute HTTPS URL"
      reject (not_public c.texts.google_oauth_userinfo_url)
          "GOOGLE_OAUTH_USERINFO_URL must be an absolute HTTPS URL"
      reject (bad_redirect c.texts.google_oauth_redirect_url)
          "GOOGLE_OAUTH_REDIRECT_URL must use HTTPS, except localhost development"
      reject (blank c.texts.google_oauth_scopes) "GOOGLE_OAUTH_SCOPES must not be empty"
      reject (bad_key decode_base64 c.texts.google_oauth_encryption_key)
          "GOOGLE_OAUTH_TOKEN_ENCRYPTION_KEY must be standard base64 for exactly 32 bytes"

    unfoldable pub check_oauth : Config → Outcome (Unit {0})
    check_oauth c = if oauth_configured c then check_oauth_values c else ok tt

    unfoldable pub check_stale : Config → Outcome (Unit {0})
    check_stale c =
        reject (ltb_ℤ c.lookup.rdap_bootstrap_max_stale c.lookup.rdap_bootstrap_ttl)
          "RDAP_BOOTSTRAP_MAX_STALE must be greater than or equal to RDAP_BOOTSTRAP_TTL"

    unfoldable pub check : Config → Outcome (Unit {0})
    check c = do
      check_service c
      check_http c
      check_monitor c
      check_probe c
      check_sources c
      check_oauth c
      check_stale c

    module _ (getenv : String → String) (parse_go_duration : String → Option ℤ) where
      unfoldable pub load : Outcome Config
      load = do
        limits ← load_limits getenv parse_go_duration
        flags ← load_flags getenv parse_go_duration
        server ← load_server getenv parse_go_duration
        monitor ← load_monitor getenv parse_go_duration
        probe ← load_probe getenv parse_go_duration
        lookup ← load_lookup getenv parse_go_duration
        let c : Config = record {
          texts = load_texts getenv parse_go_duration;
          limits = limits;
          flags = flags;
          server = server;
          monitor = monitor;
          probe = probe;
          lookup = lookup;
        }
        check c
        ok c
