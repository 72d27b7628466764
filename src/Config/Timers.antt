-- ===== src/Config/Timers.antt =====
-- The durations that `Load` of internal/config/config.go reads.
use domains_checker_infomati.Base.{String, Option, ◌*◌}
use domains_checker_infomati.Base.Int.{ℤ}
use domains_checker_infomati.Base.Outcome.{Outcome, ok, ◌>>=◌}
use domains_checker_infomati.Config.Settings.{
  millisecond, second, minute, hour, ServerTimes, MonitorTimes, ProbeTimes, LookupTimes,
}
use domains_checker_infomati.Config.Env.{parse_duration}

module _ (getenv : String → String) (parse_go_duration : String → Option ℤ) where
  unfoldable pub load_server : Outcome ServerTimes
  load_server = do
    session_ttl ← parse_duration getenv parse_go_duration "SESSION_TTL" (8 * hour)
    shutdown_timeout ← parse_duration getenv parse_go_duration "SHUTDOWN_TIMEOUT" (15 * second)
    read_header_timeout ←
        parse_duration getenv parse_go_duration "HTTP_READ_HEADER_TIMEOUT" (5 * second)
    read_timeout ← parse_duration getenv parse_go_duration "HTTP_READ_TIMEOUT" (15 * second)
    write_timeout ← parse_duration getenv parse_go_duration "HTTP_WRITE_TIMEOUT" (30 * second)
    idle_timeout ← parse_duration getenv parse_go_duration "HTTP_IDLE_TIMEOUT" (60 * second)
    db_max_conn_lifetime ←
        parse_duration getenv parse_go_duration "DB_MAX_CONN_LIFETIME" (30 * minute)
    db_max_conn_idle_time ←
        parse_duration getenv parse_go_duration "DB_MAX_CONN_IDLE_TIME" (5 * minute)
    outbox_interval ← parse_duration getenv parse_go_duration "OUTBOX_INTERVAL" (second)
    outbox_lease ← parse_duration getenv parse_go_duration "OUTBOX_LEASE" (30 * second)
    ok (record {
      session_ttl = session_ttl;
      shutdown_timeout = shutdown_timeout;
      read_header_timeout = read_header_timeout;
      read_timeout = read_timeout;
      write_timeout = write_timeout;
      idle_timeout = idle_timeout;
      db_max_conn_lifetime = db_max_conn_lifetime;
      db_max_conn_idle_time = db_max_conn_idle_time;
      outbox_interval = outbox_interval;
      outbox_lease = outbox_lease;
    })

  unfoldable pub load_monitor : Outcome MonitorTimes
  load_monitor = do
    dns_attempt_timeout ← parse_duration getenv parse_go_duration "MONITOR_DNS_TIMEOUT" (3 * second)
    http_connect_timeout ←
        parse_duration getenv parse_go_duration "MONITOR_CONNECT_TIMEOUT" (5 * second)
    tls_handshake_timeout ←
        parse_duration getenv parse_go_duration "MONITOR_TLS_TIMEOUT" (7 * second)
    http_header_timeout ←
        parse_duration getenv parse_go_duration "MONITOR_RESPONSE_HEADER_TIMEOUT" (10 * second)
    http_chain_timeout ←
        parse_duration getenv parse_go_duration "MONITOR_HTTP_CHAIN_TIMEOUT" (25 * second)
    retry_base_delay ←
        parse_duration getenv parse_go_duration "MONITOR_RETRY_BASE_DELAY" (100 * millisecond)
    retry_max_delay ← parse_duration getenv parse_go_duration "MONITOR_RETRY_MAX_DELAY" (2 * second)
    tls_expiring_soon ←
        parse_duration getenv parse_go_duration "MONITOR_TLS_EXPIRING_SOON" (30 * 24 * hour)
    monitor_run_timeout ←
        parse_duration getenv parse_go_duration "MONITOR_RUN_TIMEOUT" (60 * second)
    monitor_queue_lease ←
        parse_duration getenv parse_go_duration "MONITOR_QUEUE_LEASE" (90 * second)
    monitor_queue_block ← parse_duration getenv parse_go_duration "MONITOR_QUEUE_BLOCK" (2 * second)
    scheduler_interval ← parse_duration getenv parse_go_duration "SCHEDULER_INTERVAL" (5 * second)
    ok (record {
      dns_attempt_timeout = dns_attempt_timeout;
      http_connect_timeout = http_connect_timeout;
      tls_handshake_timeout = tls_handshake_timeout;
      http_header_timeout = http_header_timeout;
      http_chain_timeout = http_chain_timeout;
      retry_base_delay = retry_base_delay;
      retry_max_delay = retry_max_delay;
      tls_expiring_soon = tls_expiring_soon;
      monitor_run_timeout = monitor_run_timeout;
      monitor_queue_lease = monitor_queue_lease;
      monitor_queue_block = monitor_queue_block;
      scheduler_interval = scheduler_interval;
    })

  unfoldable pub load_probe : Outcome ProbeTimes
  load_probe = do
    probe_token_ttl ← parse_duration getenv parse_go_duration "PROBE_TOKEN_TTL" (5 * minute)
    probe_challenge_ttl ← parse_duration getenv parse_go_duration "PROBE_CHALLENGE_TTL" (minute)
    probe_job_ttl ← parse_duration getenv parse_go_duration "PROBE_JOB_TTL" (2 * minute)
    probe_job_lease ← parse_duration getenv parse_go_duration "PROBE_JOB_LEASE" (90 * second)
    probe_stale_after ← parse_duration getenv parse_go_duration "PROBE_STALE_AFTER" (90 * second)
    probe_max_clock_skew ←
        parse_duration getenv parse_go_duration "PROBE_MAX_CLOCK_SKEW" (2 * minute)
    probe_evidence_fresh ←
        parse_duration getenv parse_go_duration "PROBE_EVIDENCE_FRESHNESS" (24 * hour)
    ok (record {
      probe_token_ttl = probe_token_ttl;
      probe_challenge_ttl = probe_challenge_ttl;
      probe_job_ttl = probe_job_ttl;
      probe_job_lease = probe_job_lease;
      probe_stale_after = probe_stale_after;
      probe_max_clock_skew = probe_max_clock_skew;
      probe_evidence_fresh = probe_evidence_fresh;
    })

  unfoldable pub load_lookup : Outcome LookupTimes
  load_lookup = do
    rdap_request_timeout ←
        parse_duration getenv parse_go_duration "RDAP_REQUEST_TIMEOUT" (15 * second)
    rdap_bootstrap_ttl ← parse_duration getenv parse_go_duration "RDAP_BOOTSTRAP_TTL" (24 * hour)
    rdap_bootstrap_max_stale ←
        parse_duration getenv parse_go_duration "RDAP_BOOTSTRAP_MAX_STALE" (7 * 24 * hour)
    rdap_domain_ttl ← parse_duration getenv parse_go_duration "RDAP_DOMAIN_CACHE_TTL" (6 * hour)
    rdap_min_interval ←
        parse_duration getenv parse_go_duration "RDAP_MIN_REQUEST_INTERVAL" (200 * millisecond)
    finance_fx_max_age ← parse_duration getenv parse_go_duration "FINANCE_FX_MAX_AGE" (48 * hour)
    google_sheets_timeout ←
        parse_duration getenv parse_go_duration "GOOGLE_SHEETS_TIMEOUT" (20 * second)
    ok (record {
      rdap_request_timeout = rdap_request_timeout;
      rdap_bootstrap_ttl = rdap_bootstrap_ttl;
      rdap_bootstrap_max_stale = rdap_bootstrap_max_stale;
      rdap_domain_ttl = rdap_domain_ttl;
      rdap_min_interval = rdap_min_interval;
      finance_fx_max_age = finance_fx_max_age;
      google_sheets_timeout = google_sheets_timeout;
    })
