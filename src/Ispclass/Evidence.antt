-- ===== src/Ispclass/Evidence.antt =====
-- What evidence each verdict of the classifier rests on (internal/ispclass/classifier.go).
use domains_checker_infomati.Base.{
  ℕ, ltb, str_eq, refl, if_both, not, ◌||◌, ◌≤◌, ◌≡◌, ◌≢◌, ◌⊎◌, Bool, true, false, ◌&&◌, ◌==◌, leb,
}
use domains_checker_infomati.Status.{Availability, IspStatus, is_active, is_unavailable}
use domains_checker_infomati.Ispclass.{
  Input, Decision, decision, classify_block, classify, is_degraded,
}

-- All that a claim of a block needs.
pub record BlockEvidence (i : Input) : Type 0 where
  pub local_down : i.local_availability ≢ Availability.active
  pub remote_up : i.remote_availability ≡ Availability.active
  pub fresh : i.remote_fresh ≡ true
  pub probe : i.probe_healthy ≡ true
  pub clock : i.clock_healthy ≡ true
  pub not_dns : (i.pinned_availability ≢ Availability.active) ⊎ (i.local_dns_discrepancy ≡ false)
  pub not_geo : i.possible_geo_policy ≡ false
  pub not_waf : i.possible_waf ≡ false
  pub not_maintenance : i.maintenance_window ≡ false
  pub repeated : 3 ≤ i.local_failure_count
  pub spread : 2 ≤ i.local_failure_buckets
  pub remote_repeated : 2 ≤ i.remote_success_count
  pub hash_stable : i.remote_body_hash_stable ≡ true
  pub doh : i.doh_stable ≡ true
  pub stage : i.pinned_failure_stage ≢ ""

abbrev Claims : Decision → Type 0
Claims d = d.status ≡ IspStatus.high_confidence_block

-- The scores that a verdict may carry.
unfoldable pub in_band : IspStatus → ℕ → Bool
in_band IspStatus.blank n = false
in_band IspStatus.not_detected n = n == 90
in_band IspStatus.unknown n = leb n 55
in_band IspStatus.suspected n = leb 55 n && leb n 75
in_band IspStatus.high_confidence_block n = n == 95

-- Every input gets one of the four verdicts, with a score in the band of that verdict: 90 where no
-- block is detected, at most 55 where the verdict is unknown, 55 to 75 for a suspicion and 95 for a
-- block.
pub classify-in_band : (i : Input) → in_band (classify i).status (classify i).confidence ≡ true
unfolding classify classify_block decision in_band
classify-in_band i =
    let P = λ (d : Decision). in_band d.status d.confidence ≡ true in
    if_both P (is_active i.local_availability) _ _ refl (
      if_both P (not i.remote_fresh) _ _ refl (
        if_both P (not i.probe_healthy || not i.clock_healthy) _ _ refl (
          if_both P (not (is_active i.remote_availability)) _ _
            (if_both P (is_unavailable i.local_availability || is_degraded i.local_availability) _ _
              refl refl)
            (if_both P (is_active i.pinned_availability && i.local_dns_discrepancy) _ _ refl (
              if_both P i.possible_geo_policy _ _ refl (
                if_both P i.possible_waf _ _ refl (
                  if_both P i.maintenance_window _ _ refl (
                    if_both P (ltb i.local_failure_count 3 || ltb i.local_failure_buckets 2) _ _
                      refl
                      (if_both P (ltb i.remote_success_count 2 || not i.remote_body_hash_stable) _ _
                        refl
                        (if_both P (not i.doh_stable) _ _ refl
                          (if_both P (str_eq i.pinned_failure_stage "") _ _ refl refl)))))))))))
