-- ===== src/Ispclass/Tests.antt =====
-- The classifier on full evidence, and on the same evidence under a maintenance window.
use domains_checker_infomati.Base.{◌≡◌, refl, true, false}
use domains_checker_infomati.Status.{Availability, IspStatus}
use domains_checker_infomati.Ispclass.{Input, classify}

abbrev blocked : Input
blocked = record {
  local_availability = Availability.unavailable;
  local_failure_count = 3;
  local_failure_buckets = 2;
  local_dns_discrepancy = true;
  doh_stable = true;
  pinned_availability = Availability.unavailable;
  pinned_failure_stage = "tcp";
  remote_availability = Availability.active;
  remote_success_count = 2;
  remote_body_hash_stable = true;
  remote_fresh = true;
  probe_healthy = true;
  clock_healthy = true;
  possible_geo_policy = false;
  possible_waf = false;
  maintenance_window = false;
}

blocked_status : (classify blocked).status ≡ IspStatus.high_confidence_block
unfolding classify
blocked_status = refl

maintained_status :
    (classify (record blocked { maintenance_window = true })).status ≡ IspStatus.unknown
unfolding classify
maintained_status = refl
