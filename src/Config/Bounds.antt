-- ===== src/Config/Bounds.antt =====
-- The bounds on counts, sizes and texts that internal/config/config.go checks.
use domains_checker_infomati.Base.{ℕ, ◌≤◌, String, Option, false, ◌≡◌, ◌↔◌, arith, str_eq}
use domains_checker_infomati.Base.Int.{ℤ, pos, ◌≤ℤ◌}
use domains_checker_infomati.Base.Text.{codes, trim_space, byte_length}
use domains_checker_infomati.Base.Outcome.{ok}
use domains_checker_infomati.Config.Settings.{Config}
use domains_checker_infomati.Config.Checks.{Link, check_http, check_monitor, check_probe}

abbrev pub Within : ℕ → ℕ → ℤ → Type 0
Within low high value = (pos low ≤ℤ value) × (value ≤ℤ pos high)

-- A text of one to `most` bytes that is not blank.
abbrev pub Short : ℕ → String → Type 0
Short most value = (str_eq (trim_space value) "" ≡ false) × (byte_length (codes value) ≤ most)

pub record IsBounded (c : Config) : Type 0 where
  pub redirects : Within 1 20 c.limits.http_max_redirects
  pub body : Within 1024 16777216 c.limits.http_max_body_bytes
  pub excerpt :
      Within 0 65536 c.limits.http_excerpt_bytes
      × (c.limits.http_excerpt_bytes ≤ℤ c.limits.http_max_body_bytes)
  pub headers : Within 1024 65536 c.limits.http_header_bytes
  pub smallest :
      (pos 1 ≤ℤ c.limits.http_min_body_bytes)
      × (c.limits.http_min_body_bytes ≤ℤ c.limits.http_max_body_bytes)
  pub attempts : Within 1 20 c.limits.monitor_max_attempts
  pub delays : c.monitor.retry_base_delay ≤ℤ c.monitor.retry_max_delay

pub check_http_iff :
    (parse_url : String → Option Link) (c : Config) → (check_http parse_url c ≡ ok tt) ↔ IsBounded c
unfolding check_http
check_http_iff parse_url c = (λ h. ground arith, λ v. ground arith)

pub record IsMonitor (c : Config) : Type 0 where
  pub agent : Short 200 c.texts.monitor_user_agent
  pub policy : Short 100 c.texts.monitor_policy_version
  pub group : Short 200 c.texts.monitor_queue_group
  pub workers : Within 1 500 c.limits.monitor_workers
  pub batch : Within 1 1000 c.limits.scheduler_batch_size
  pub opening : Within 1 100 c.limits.incident_open_failures
  pub closing : Within 1 100 c.limits.incident_close_success

pub check_monitor_iff :
    (parse_url : String → Option Link) (c : Config)
    → (check_monitor parse_url c ≡ ok tt) ↔ IsMonitor c
unfolding check_monitor
check_monitor_iff parse_url c = (λ h. ground arith, λ v. ground arith)

pub record IsProbe (c : Config) : Type 0 where
  pub batch : Within 1 1000 c.limits.probe_dispatch_batch
  pub region :
      (2 ≤ byte_length c.texts.probe_required_region)
      × (byte_length c.texts.probe_required_region ≤ 16)
  pub payload : Within 4096 10485760 c.limits.probe_max_payload_bytes
  pub lease : ¬ (c.probe.probe_job_ttl ≤ℤ c.probe.probe_job_lease)

pub check_probe_iff :
    (parse_url : String → Option Link) (c : Config) → (check_probe parse_url c ≡ ok tt) ↔ IsProbe c
unfolding check_probe
check_probe_iff parse_url c = (λ h. ground arith, λ v. ground arith)
