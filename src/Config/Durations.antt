-- ===== src/Config/Durations.antt =====
-- Every duration that `Load` of internal/config/config.go reads is positive.
use domains_checker_infomati.Base.{ℕ, ◌≤◌, String, Option, arith}
use domains_checker_infomati.Base.Int.{ℤ, pos, ◌≤ℤ◌}
use domains_checker_infomati.Base.Outcome.{Outcome, Ensures, ◌>>=◌, >>=-Ensures}
use domains_checker_infomati.Config.Settings.{ServerTimes, MonitorTimes, ProbeTimes, LookupTimes}
use domains_checker_infomati.Config.Env.{parse_duration}
use domains_checker_infomati.Config.Timers.{load_server, load_monitor, load_probe, load_lookup}

abbrev pub Positive : ℤ → Type 0
Positive value = pos 1 ≤ℤ value

pub record ServerTimesPositive (t : ServerTimes) : Type 0 where
  pub session_ttl : Positive t.session_ttl
  pub shutdown_timeout : Positive t.shutdown_timeout
  pub read_header_timeout : Positive t.read_header_timeout
  pub read_timeout : Positive t.read_timeout
  pub write_timeout : Positive t.write_timeout
  pub idle_timeout : Positive t.idle_timeout
  pub db_max_conn_lifetime : Positive t.db_max_conn_lifetime
  pub db_max_conn_idle_time : Positive t.db_max_conn_idle_time
  pub outbox_interval : Positive t.outbox_interval
  pub outbox_lease : Positive t.outbox_lease

pub record MonitorTimesPositive (t : MonitorTimes) : Type 0 where
  pub dns_attempt_timeout : Positive t.dns_attempt_timeout
  pub http_connect_timeout : Positive t.http_connect_timeout
  pub tls_handshake_timeout : Positive t.tls_handshake_timeout
  pub http_header_timeout : Positive t.http_header_timeout
  pub http_chain_timeout : Positive t.http_chain_timeout
  pub retry_base_delay : Positive t.retry_base_delay
  pub retry_max_delay : Positive t.retry_max_delay
  pub tls_expiring_soon : Positive t.tls_expiring_soon
  pub monitor_run_timeout : Positive t.monitor_run_timeout
  pub monitor_queue_lease : Positive t.monitor_queue_lease
  pub monitor_queue_block : Positive t.monitor_queue_block
  pub scheduler_interval : Positive t.scheduler_interval

pub record ProbeTimesPositive (t : ProbeTimes) : Type 0 where
  pub probe_token_ttl : Positive t.probe_token_ttl
  pub probe_challenge_ttl : Positive t.probe_challenge_ttl
  pub probe_job_ttl : Positive t.probe_job_ttl
  pub probe_job_lease : Positive t.probe_job_lease
  pub probe_stale_after : Positive t.probe_stale_after
  pub probe_max_clock_skew : Positive t.probe_max_clock_skew
  pub probe_evidence_fresh : Positive t.probe_evidence_fresh

pub record LookupTimesPositive (t : LookupTimes) : Type 0 where
  pub rdap_request_timeout : Positive t.rdap_request_timeout
  pub rdap_bootstrap_ttl : Positive t.rdap_bootstrap_ttl
  pub rdap_bootstrap_max_stale : Positive t.rdap_bootstrap_max_stale
  pub rdap_domain_ttl : Positive t.rdap_domain_ttl
  pub rdap_min_interval : Positive t.rdap_min_interval
  pub finance_fx_max_age : Positive t.finance_fx_max_age
  pub google_sheets_timeout : Positive t.google_sheets_timeout

module _ (getenv : String → String) (parse_go_duration : String → Option ℤ) where
  parse_duration-Positive :
      (key : String) (fallback : ℕ)
      → 1 ≤ fallback
      → Ensures Positive (parse_duration getenv parse_go_duration key fallback)
  unfolding parse_duration
  parse_duration-Positive key fallback h = ground arith

  -- The next duration of a chain.
  then_duration :
      {R : Type 0} (P : R → Type 0) (key : String) (fallback : ℕ) (rest : ℤ → Outcome R)
      → 1 ≤ fallback
      → ((value : ℤ) → Positive value → Ensures P (rest value))
      → Ensures P (parse_duration getenv parse_go_duration key fallback >>= rest)
  then_duration P key fallback rest h k =
      >>=-Ensures Positive P _ rest (parse_duration-Positive key fallback h) k

  pub load_server-Positive : Ensures ServerTimesPositive (load_server getenv parse_go_duration)
  unfolding load_server
  load_server-Positive =
      then_duration ServerTimesPositive _ _ _ (omega arith) λ session_ttl session_ttl_positive.
        then_duration ServerTimesPositive _ _ _ (omega arith)
          λ shutdown_timeout shutdown_timeout_positive.
            then_duration ServerTimesPositive _ _ _ (omega arith)
              λ read_header_timeout read_header_timeout_positive.
                then_duration ServerTimesPositive _ _ _ (omega arith)
                  λ read_timeout read_timeout_positive.
                    then_duration ServerTimesPositive _ _ _ (omega arith)
                      λ write_timeout write_timeout_positive.
                        then_duration ServerTimesPositive _ _ _ (omega arith)
                          λ idle_timeout idle_timeout_positive.
                            then_duration ServerTimesPositive _ _ _ (omega arith)
                              λ db_max_conn_lifetime db_max_conn_lifetime_positive.
                                then_duration ServerTimesPositive _ _ _ (omega arith)
                                  λ db_max_conn_idle_time db_max_conn_idle_time_positive.
                                    then_duration ServerTimesPositive _ _ _ (omega arith)
                                      λ outbox_interval outbox_interval_positive.
                                        then_duration ServerTimesPositive _ _ _ (omega arith)
                                          λ outbox_lease outbox_lease_positive. record {
                                            session_ttl = session_ttl_positive;
                                            shutdown_timeout = shutdown_timeout_positive;
                                            read_header_timeout = read_header_timeout_positive;
                                            read_timeout = read_timeout_positive;
                                            write_timeout = write_timeout_positive;
                                            idle_timeout = idle_timeout_positive;
                                            db_max_conn_lifetime = db_max_conn_lifetime_positive;
                                            db_max_conn_idle_time = db_max_conn_idle_time_positive;
                                            outbox_interval = outbox_interval_positive;
                                            outbox_lease = outbox_lease_positive;
                                          }

  pub load_monitor-Positive : Ensures MonitorTimesPositive (load_monitor getenv parse_go_duration)
  unfolding load_monitor
  load_monitor-Positive =
      then_duration MonitorTimesPositive _ _ _ (omega arith)
        λ dns_attempt_timeout dns_attempt_timeout_positive.
          then_duration MonitorTimesPositive _ _ _ (omega arith)
            λ http_connect_timeout http_connect_timeout_positive.
              then_duration MonitorTimesPositive _ _ _ (omega arith)
                λ tls_handshake_timeout tls_handshake_timeout_positive.
                  then_duration MonitorTimesPositive _ _ _ (omega arith)
                    λ http_header_timeout http_header_timeout_positive.
                      then_duration MonitorTimesPositive _ _ _ (omega arith)
                        λ http_chain_timeout http_chain_timeout_positive.
                          then_duration MonitorTimesPositive _ _ _ (omega arith)
                            λ retry_base_delay retry_base_delay_positive.
                              then_duration MonitorTimesPositive _ _ _ (omega arith)
                                λ retry_max_delay retry_max_delay_positive.
                                  then_duration MonitorTimesPositive _ _ _ (omega arith)
                                    λ tls_expiring_soon tls_expiring_soon_positive.
                                      then_duration MonitorTimesPositive _ _ _ (omega arith)
                                        λ monitor_run_timeout monitor_run_timeout_positive.
                                          then_duration MonitorTimesPositive _ _ _ (omega arith)
                                            λ monitor_queue_lease monitor_queue_lease_positive.
                                              then_duration MonitorTimesPositive _ _ _ (omega arith)
                                                λ monitor_queue_block monitor_queue_block_positive.
                                                  then_duration MonitorTimesPositive _ _ _
                                                    (omega arith)
                                                    λ scheduler_interval
                                                        scheduler_interval_positive.
                                                      record {
                                                        dns_attempt_timeout =
                                                            dns_attempt_timeout_positive;
                                                        http_connect_timeout =
                                                            http_connect_timeout_positive;
                                                        tls_handshake_timeout =
                                                            tls_handshake_timeout_positive;
                                                        http_header_timeout =
                                                            http_header_timeout_positive;
                                                        http_chain_timeout =
                                                            http_chain_timeout_positive;
                                                        retry_base_delay =
                                                            retry_base_delay_positive;
                                                        retry_max_delay = retry_max_delay_positive;
                                                        tls_expiring_soon =
                                                            tls_expiring_soon_positive;
                                                        monitor_run_timeout =
                                                            monitor_run_timeout_positive;
                                                        monitor_queue_lease =
                                                            monitor_queue_lease_positive;
                                                        monitor_queue_block =
                                                            monitor_queue_block_positive;
                                                        scheduler_interval =
                                                            scheduler_interval_positive;
                                                      }

  pub load_probe-Positive : Ensures ProbeTimesPositive (load_probe getenv parse_go_duration)
  unfolding load_probe
  load_probe-Positive =
      then_duration ProbeTimesPositive _ _ _ (omega arith)
        λ probe_token_ttl probe_token_ttl_positive.
          then_duration ProbeTimesPositive _ _ _ (omega arith)
            λ probe_challenge_ttl probe_challenge_ttl_positive.
              then_duration ProbeTimesPositive _ _ _ (omega arith)
                λ probe_job_ttl probe_job_ttl_positive.
                  then_duration ProbeTimesPositive _ _ _ (omega arith)
                    λ probe_job_lease probe_job_lease_positive.
                      then_duration ProbeTimesPositive _ _ _ (omega arith)
                        λ probe_stale_after probe_stale_after_positive.
                          then_duration ProbeTimesPositive _ _ _ (omega arith)
                            λ probe_max_clock_skew probe_max_clock_skew_positive.
                              then_duration ProbeTimesPositive _ _ _ (omega arith)
                                λ probe_evidence_fresh probe_evidence_fresh_positive. record {
                                  probe_token_ttl = probe_token_ttl_positive;
                                  probe_challenge_ttl = probe_challenge_ttl_positive;
                                  probe_job_ttl = probe_job_ttl_positive;
                                  probe_job_lease = probe_job_lease_positive;
                                  probe_stale_after = probe_stale_after_positive;
                                  probe_max_clock_skew = probe_max_clock_skew_positive;
                                  probe_evidence_fresh = probe_evidence_fresh_positive;
                                }

  pub load_lookup-Positive : Ensures LookupTimesPositive (load_lookup getenv parse_go_duration)
  unfolding load_lookup
  load_lookup-Positive =
      then_duration LookupTimesPositive _ _ _ (omega arith)
        λ rdap_request_timeout rdap_request_timeout_positive.
          then_duration LookupTimesPositive _ _ _ (omega arith)
            λ rdap_bootstrap_ttl rdap_bootstrap_ttl_positive.
              then_duration LookupTimesPositive _ _ _ (omega arith)
                λ rdap_bootstrap_max_stale rdap_bootstrap_max_stale_positive.
                  then_duration LookupTimesPositive _ _ _ (omega arith)
                    λ rdap_domain_ttl rdap_domain_ttl_positive.
                      then_duration LookupTimesPositive _ _ _ (omega arith)
                        λ rdap_min_interval rdap_min_interval_positive.
                          then_duration LookupTimesPositive _ _ _ (omega arith)
                            λ finance_fx_max_age finance_fx_max_age_positive.
                              then_duration LookupTimesPositive _ _ _ (omega arith)
                                λ google_sheets_timeout google_sheets_timeout_positive. record {
                                  rdap_request_timeout = rdap_request_timeout_positive;
                                  rdap_bootstrap_ttl = rdap_bootstrap_ttl_positive;
                                  rdap_bootstrap_max_stale = rdap_bootstrap_max_stale_positive;
                                  rdap_domain_ttl = rdap_domain_ttl_positive;
                                  rdap_min_interval = rdap_min_interval_positive;
                                  finance_fx_max_age = finance_fx_max_age_positive;
                                  google_sheets_timeout = google_sheets_timeout_positive;
                                }
