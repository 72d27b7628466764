-- ===== src/Recommendation/Engine.antt =====
-- internal/recommendation/engine.go: `Evaluate` and `opportunity`. The domain is a list of ASCII
-- code points; instants are nanoseconds.
pub mod Clear
pub mod Actions
pub mod Branches
pub mod Scores
pub mod Parallel
use domains_checker_infomati.Base.{
  ℕ, ◌+◌, max, String, List, [], ◌∷◌, ◌++◌, Option, none, some, Bool, true, false, not, ◌&&◌, ◌||◌,
  if◌then◌else◌, leb, ltb, ◌==◌, is_some, str_eq, length,
}
use domains_checker_infomati.Base.Text.{
  Text, codes, text_eq, to_lower, trim_dot, trim_space, split, contains,
}
use domains_checker_infomati.Status.{
  Availability, DnsStatus, HttpStatus, RedirectStatus, IspStatus, TlsStatus, ConfidenceLevel,
  is_active, is_unavailable, is_unknown,
}
use domains_checker_infomati.Recommendation.Reasons.{
  when, Reason, data_incomplete, expiration_unknown, isp_block_review, technical_risk_review,
  downtime_history, renewal_cost_unknown, inactive_low_priority, permanent_redirect,
  profit_indicators_high, business_importance, expiring_soon_reason, healthy_monitoring,
  policy_review_required, short_domain, brandable_pattern, strong_tld,
}
use domains_checker_infomati.Recommendation.Types.{
  Lifecycle, SourceStatus, Priority, Action, OpportunityLevel, Input, Result,
}
use domains_checker_infomati.Recommendation.Opportunity.{
  label_of, last_part, tld_of, length_score, is_digit, is_brandable, is_com, is_listed, points,
  opportunity_score, level_of, opportunity_level, opportunity_reasons,
}

-- `confidenceLevel`.
unfoldable pub confidence_level : ℕ → ConfidenceLevel
confidence_level score =
    if leb 70 score
    then ConfidenceLevel.high
    else if leb 40 score
    then ConfidenceLevel.medium
    else ConfidenceLevel.low

-- `badDNS` and `badTLS`.
unfoldable pub bad_dns : DnsStatus → Bool
bad_dns DnsStatus.ok = false
bad_dns DnsStatus.unknown = false
bad_dns _ = true

unfoldable pub bad_tls : TlsStatus → Bool
bad_tls TlsStatus.valid = false
bad_tls TlsStatus.not_applicable = false
bad_tls TlsStatus.unknown = false
bad_tls TlsStatus.expiring = false
bad_tls _ = true

-- The closure `add`.
unfoldable pub add : List Reason → Result → Result
add [] r = r
add (x ∷ xs) r = add xs (record r {
  reason_codes = r.reason_codes ++ x.code ∷ [];
  reasons_th = r.reasons_th ++ x.th ∷ [];
  reasons_en = r.reasons_en ++ x.en ∷ [];
  evidence_refs =
      if str_eq x.evidence "" then r.evidence_refs else r.evidence_refs ++ x.evidence ∷ [];
})

unfoldable pub start : OpportunityLevel → Result
start level = record {
  action = Action.review;
  opportunity_level = level;
  confidence_score = 55;
  confidence_level = ConfidenceLevel.blank;
  reason_codes = [];
  reasons_th = [];
  reasons_en = [];
  evidence_refs = [];
}

-- How every branch of `Evaluate` ends: the action and the score, its reasons, those of the
-- opportunity, and the level of the score.
unfoldable pub conclude : Input → Action → ℕ → List Reason → Result
unfolding start
conclude i action score items =
    let r = record (start (opportunity_level i)) { action = action; confidence_score = score } in
    let s = add (opportunity_reasons i) (add items r) in
    record s { confidence_level = confidence_level s.confidence_score }

-- The expiry lies in the 90 days from now on.
unfoldable pub expiring_soon : Option ℕ → ℕ → Bool
expiring_soon none now = false
expiring_soon (some t) now = not (ltb t now) && ltb t (now + 7_776_000_000_000_000)

abbrev pub is_important : Priority → Bool
is_important Priority.high = true
is_important Priority.critical = true
is_important _ = false

abbrev pub is_minor : Priority → Bool
is_minor Priority.low = true
is_minor Priority.medium = true
is_minor _ = false

abbrev pub is_low : Priority → Bool
is_low Priority.low = true
is_low _ = false

abbrev pub is_inactive : Lifecycle → Bool
is_inactive Lifecycle.inactive = true
is_inactive _ = false

abbrev pub is_live : Lifecycle → Bool
is_live Lifecycle.active = true
is_live _ = false

abbrev pub is_archived : Lifecycle → Bool
is_archived Lifecycle.archived = true
is_archived _ = false

abbrev pub is_missing : SourceStatus → Bool
is_missing SourceStatus.missing_from_source = true
is_missing _ = false

abbrev pub is_permanent : RedirectStatus → Bool
is_permanent RedirectStatus.permanent = true
is_permanent _ = false

abbrev pub is_high : OpportunityLevel → Bool
is_high OpportunityLevel.high = true
is_high _ = false

abbrev pub dns_unknown : DnsStatus → Bool
dns_unknown DnsStatus.unknown = true
dns_unknown _ = false

abbrev pub isp_unknown : IspStatus → Bool
isp_unknown IspStatus.unknown = true
isp_unknown _ = false

abbrev pub isp_blocks : IspStatus → Bool
isp_blocks IspStatus.high_confidence_block = true
isp_blocks IspStatus.suspected = true
isp_blocks _ = false

-- The decisions of `Evaluate`, once the evidence is complete and free of trouble.
decide : Input → ℕ → Result
decide i now =
    let soon = expiring_soon i.expiration_at now in
    if is_inactive i.lifecycle
      && is_low i.priority
      && is_permanent i.redirect
      && not (is_missing i.source_status)
    then conclude i Action.drop 82 (inactive_low_priority ∷ permanent_redirect ∷ [])
    else if is_high (opportunity_level i) && is_minor i.priority && not (is_archived i.lifecycle)
    then conclude i Action.profit_opportunity 72 (profit_indicators_high ∷ [])
    else if is_important i.priority || (is_live i.lifecycle && is_active i.availability && soon)
    then conclude i Action.renew 84 (
        when (is_important i.priority) business_importance
        ++ (when soon expiring_soon_reason ++ healthy_monitoring ∷ []))
    else conclude i Action.review 60 (policy_review_required ∷ [])

-- `Evaluate`.
unfoldable pub evaluate : Input → ℕ → Result
unfolding decide
evaluate i now =
    if not (is_some i.last_checked_at)
      || is_unknown i.availability
      || dns_unknown i.dns
      || isp_unknown i.isp
    then conclude i Action.review 42
        (data_incomplete ∷ when (not (is_some i.expiration_at)) expiration_unknown)
    else if isp_blocks i.isp
    then conclude i Action.review (max 68 i.status_confidence) (isp_block_review ∷ [])
    else if ltb 0 i.open_incidents
        || is_unavailable i.availability
        || bad_dns i.dns
        || bad_tls i.tls
    then conclude i Action.review (max 65 i.status_confidence)
        (technical_risk_review ∷ when (ltb 0 i.downtime_changes) downtime_history)
    else if str_eq (trim_space i.renewal_amount) "" || str_eq (trim_space i.renewal_currency) ""
    then conclude i Action.review 48 (renewal_cost_unknown ∷ [])
    else decide i now
