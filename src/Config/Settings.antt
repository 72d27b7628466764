-- ===== src/Config/Settings.antt =====
-- internal/config/config.go: the settings. The fields of `Config` stand in records by their type, the
-- durations (in nanoseconds) in one record for each part of the program.
use domains_checker_infomati.Base.{ℕ, String, Bool, ◌*◌}
use domains_checker_infomati.Base.Int.{ℤ}
use domains_checker_infomati.Base.Text.{Text}

abbrev pub millisecond : ℕ
millisecond = 1000000

abbrev pub second : ℕ
second = 1000 * millisecond

abbrev pub minute : ℕ
minute = 60 * second

abbrev pub hour : ℕ
hour = 60 * minute

pub record Texts : Type 0 where
  pub environment : String
  pub http_address : String
  pub database_url : String
  pub redis_address : String
  pub redis_password : String
  pub default_locale : Text
  pub cookie_name : String
  pub outbox_stream : String
  pub local_dns_address : String
  pub doh_endpoint : String
  pub monitor_user_agent : String
  pub monitor_policy_version : String
  pub monitor_queue_group : String
  pub probe_required_region : Text
  pub rdap_bootstrap_url : String
  pub google_sheets_api_base : String
  pub google_sheets_api_key : String
  pub google_sheets_access_token : String
  pub google_credentials_file : String
  pub google_drive_api_base : String
  pub google_oauth_auth_url : String
  pub google_oauth_token_url : String
  pub google_oauth_userinfo_url : String
  pub google_oauth_client_id : String
  pub google_oauth_client_secret : String
  pub google_oauth_redirect_url : String
  pub google_oauth_encryption_key : String
  pub google_oauth_scopes : String

pub record Limits : Type 0 where
  pub redis_db : ℤ
  pub db_max_connections : ℤ
  pub db_min_connections : ℤ
  pub api_max_body_bytes : ℤ
  pub outbox_batch_size : ℤ
  pub outbox_max_attempts : ℤ
  pub doh_max_bytes : ℤ
  pub http_max_redirects : ℤ
  pub http_max_body_bytes : ℤ
  pub http_excerpt_bytes : ℤ
  pub http_header_bytes : ℤ
  pub http_min_body_bytes : ℤ
  pub monitor_max_attempts : ℤ
  pub monitor_workers : ℤ
  pub scheduler_batch_size : ℤ
  pub incident_open_failures : ℤ
  pub incident_close_success : ℤ
  pub probe_dispatch_batch : ℤ
  pub probe_max_payload_bytes : ℤ
  pub rdap_max_bytes : ℤ
  pub google_sheets_max_bytes : ℤ
  pub excel_import_max_bytes : ℤ
  pub excel_unzip_max_bytes : ℤ
  pub excel_import_max_rows : ℤ
  pub excel_import_max_columns : ℤ

pub record Flags : Type 0 where
  pub cookie_secure : Bool
  pub allow_unknown_tld : Bool

pub record ServerTimes : Type 0 where
  pub session_ttl : ℤ
  pub shutdown_timeout : ℤ
  pub read_header_timeout : ℤ
  pub read_timeout : ℤ
  pub write_timeout : ℤ
  pub idle_timeout : ℤ
  pub db_max_conn_lifetime : ℤ
  pub db_max_conn_idle_time : ℤ
  pub outbox_interval : ℤ
  pub outbox_lease : ℤ

pub record MonitorTimes : Type 0 where
  pub dns_attempt_timeout : ℤ
  pub http_connect_timeout : ℤ
  pub tls_handshake_timeout : ℤ
  pub http_header_timeout : ℤ
  pub http_chain_timeout : ℤ
  pub retry_base_delay : ℤ
  pub retry_max_delay : ℤ
  pub tls_expiring_soon : ℤ
  pub monitor_run_timeout : ℤ
  pub monitor_queue_lease : ℤ
  pub monitor_queue_block : ℤ
  pub scheduler_interval : ℤ

pub record ProbeTimes : Type 0 where
  pub probe_token_ttl : ℤ
  pub probe_challenge_ttl : ℤ
  pub probe_job_ttl : ℤ
  pub probe_job_lease : ℤ
  pub probe_stale_after : ℤ
  pub probe_max_clock_skew : ℤ
  pub probe_evidence_fresh : ℤ

pub record LookupTimes : Type 0 where
  pub rdap_request_timeout : ℤ
  pub rdap_bootstrap_ttl : ℤ
  pub rdap_bootstrap_max_stale : ℤ
  pub rdap_domain_ttl : ℤ
  pub rdap_min_interval : ℤ
  pub finance_fx_max_age : ℤ
  pub google_sheets_timeout : ℤ

pub record Config : Type 0 where
  pub texts : Texts
  pub limits : Limits
  pub flags : Flags
  pub server : ServerTimes
  pub monitor : MonitorTimes
  pub probe : ProbeTimes
  pub lookup : LookupTimes
