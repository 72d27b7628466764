-- ===== src/Ispclass.antt =====
-- internal/ispclass/classifier.go: whether the evidence of several vantage points speaks for a block
-- by the local network.
pub mod Evidence
mod Tests
use domains_checker_infomati.Base.{
  ℕ, String, List, [], ◌∷◌, ◌++◌, Bool, true, false, not, ◌&&◌, ◌||◌, if◌then◌else◌, ltb, str_eq,
}
use domains_checker_infomati.Status.{Availability, IspStatus, is_active, is_unavailable}

pub record Input : Type 0 where
  pub local_availability : Availability
  pub local_failure_count : ℕ
  pub local_failure_buckets : ℕ
  pub local_dns_discrepancy : Bool
  pub doh_stable : Bool
  pub pinned_availability : Availability
  pub pinned_failure_stage : String
  pub remote_availability : Availability
  pub remote_success_count : ℕ
  pub remote_body_hash_stable : Bool
  pub remote_fresh : Bool
  pub probe_healthy : Bool
  pub clock_healthy : Bool
  pub possible_geo_policy : Bool
  pub possible_waf : Bool
  pub maintenance_window : Bool

pub record Decision : Type 0 where
  pub status : IspStatus
  pub confidence : ℕ
  pub reasons : List String

-- `slices.Compact`: runs of equal entries shrink to their first.
unfoldable pub compact : List String → List String
compact [] = []
compact (x ∷ []) = x ∷ []
compact (x ∷ y ∷ xs) = let rest = compact (y ∷ xs) in if str_eq x y then rest else x ∷ rest

unfoldable pub decision : IspStatus → ℕ → List String → Decision
unfolding compact
decision status confidence reasons = record {
  status = status;
  confidence = if ltb 99 confidence then 99 else confidence;
  reasons = compact reasons;
}

abbrev pub when : Bool → String → List String
when true reason = reason ∷ []
when false reason = []

-- The reasons gathered once the remote probe has seen valid content.
unfoldable pub remote_reasons : Input → List String
remote_reasons i =
    "REMOTE_SG_CONTENT_VALID" ∷ when (ltb 0 i.local_failure_count) "LOCAL_SYSTEM_HTTP_FAILED"
    ++ (when i.local_dns_discrepancy "LOCAL_DNS_ANSWER_SET_DIFFERS"
        ++ when i.doh_stable "DOH_ORIGIN_IP_STABLE")

abbrev pub is_degraded : Availability → Bool
is_degraded Availability.degraded = true
is_degraded _ = false

-- The second half of `Classify`: no interference by the resolver was shown.
classify_block : Input → List String → Decision
unfolding decision
classify_block i reasons =
    if i.possible_geo_policy
    then decision IspStatus.unknown 45 (reasons ++ "POSSIBLE_GEO_POLICY" ∷ [])
    else if i.possible_waf
    then decision IspStatus.unknown 45 (reasons ++ "POSSIBLE_WAF_BLOCK" ∷ [])
    else if i.maintenance_window
    then decision IspStatus.unknown 30 (reasons ++ "MAINTENANCE_WINDOW_ACTIVE" ∷ [])
    else if ltb i.local_failure_count 3 || ltb i.local_failure_buckets 2
    then decision IspStatus.suspected 55 (reasons ++ "LOCAL_FAILURE_NOT_YET_REPEATED" ∷ [])
    else if ltb i.remote_success_count 2 || not i.remote_body_hash_stable
    then decision IspStatus.suspected 65 (reasons ++ "REMOTE_SUCCESS_NOT_YET_REPEATED" ∷ [])
    else if not i.doh_stable
    then decision IspStatus.unknown 40 (reasons ++ "DOH_EVIDENCE_UNSTABLE" ∷ [])
    else if str_eq i.pinned_failure_stage ""
    then decision IspStatus.suspected 60 (reasons ++ "LOCAL_FAILURE_STAGE_INCONSISTENT" ∷ [])
    else decision IspStatus.high_confidence_block 95 (
        reasons
        ++ "LOCAL_FAILURE_REPEATED" ∷ "REMOTE_SG_BODY_HASH_STABLE"
          ∷ "NETWORK_SCOPED_HIGH_CONFIDENCE_BLOCK" ∷ [])

-- `Classify`.
unfoldable pub classify : Input → Decision
unfolding decision remote_reasons classify_block
classify i =
    if is_active i.local_availability
    then decision IspStatus.not_detected 90 ("LOCAL_CONTENT_VALID" ∷ [])
    else if not i.remote_fresh
    then decision IspStatus.unknown 20 ("REMOTE_EVIDENCE_STALE" ∷ [])
    else if not i.probe_healthy || not i.clock_healthy
    then decision IspStatus.unknown 20 ("REMOTE_PROBE_UNHEALTHY" ∷ [])
    else if not (is_active i.remote_availability)
    then if is_unavailable i.local_availability || is_degraded i.local_availability
      then decision IspStatus.unknown 55 ("ORIGIN_GLOBAL_FAILURE" ∷ [])
      else decision IspStatus.unknown 25 ("REMOTE_EVIDENCE_INCONCLUSIVE" ∷ [])
    else if is_active i.pinned_availability && i.local_dns_discrepancy
    then decision IspStatus.suspected 75
        (remote_reasons i ++ "LOCAL_DOH_PINNED_HTTP_SUCCEEDED" ∷ "DNS_INTERFERENCE_SUSPECTED" ∷ [])
    else classify_block i (
        remote_reasons i
        ++ when (not (is_active i.pinned_availability)) "LOCAL_DOH_PINNED_HTTP_FAILED")
