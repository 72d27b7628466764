-- ===== src/Recommendation/Opportunity.antt =====
-- internal/recommendation/engine.go: `opportunity`, what the name of a domain may be worth.
pub mod High
use domains_checker_infomati.Base.{
  ℕ, ◌+◌, max, String, List, [], ◌∷◌, ◌++◌, Option, none, some, Bool, true, false, not, ◌&&◌, ◌||◌,
  if◌then◌else◌, leb, ltb, ◌==◌, is_some, str_eq, length,
}
use domains_checker_infomati.Base.Text.{
  Text, codes, text_eq, to_lower, trim_dot, trim_space, split, contains,
}
use domains_checker_infomati.Status.{
  Availability, DnsStatus, HttpStatus, RedirectStatus, IspStatus, TlsStatus, ConfidenceLevel,
  is_active, is_unavailable, is_unknown,
}
use domains_checker_infomati.Recommendation.Reasons.{
  when, Reason, data_incomplete, expiration_unknown, isp_block_review, technical_risk_review,
  downtime_history, renewal_cost_unknown, inactive_low_priority, permanent_redirect,
  profit_indicators_high, business_importance, expiring_soon_reason, healthy_monitoring,
  policy_review_required, short_domain, brandable_pattern, strong_tld,
}
use domains_checker_infomati.Recommendation.Types.{
  Lifecycle, SourceStatus, Priority, Action, OpportunityLevel, Input, Result,
}

-- The first label of the domain, and its top level, "" where there is one label only.
unfoldable pub label_of : Text → Text
label_of domain = (split b'.' (to_lower (trim_dot domain))).0

pub last_part : Text → List Text → Text
last_part part [] = part
last_part part (p ∷ ps) = last_part p ps

unfoldable pub tld_of : Text → Text
unfolding last_part
tld_of domain = last_part [] (split b'.' (to_lower (trim_dot domain))).1

-- What `opportunity` adds to its score for the length of the label, its characters, the top level
-- and the state of the monitoring.
unfoldable pub length_score : ℕ → ℕ
length_score n = if leb n 8 then 2 else if leb n 12 then 1 else 0

pub is_digit : ℕ → Bool
is_digit c = leb b'0' c && leb c b'9'

unfoldable pub is_brandable : Text → Bool
unfolding is_digit
is_brandable label = not (contains (λ c. c == b'-') label) && not (contains is_digit label)

unfoldable pub is_com : Text → Bool
is_com tld = text_eq tld (codes "com")

unfoldable pub is_listed : Text → Bool
is_listed tld =
    text_eq tld (codes "net")
    || text_eq tld (codes "org")
    || text_eq tld (codes "co")
    || text_eq tld (codes "th")

abbrev pub points : ℕ → Bool → ℕ
points n true = n
points n false = 0

unfoldable pub opportunity_score : ℕ → Bool → Bool → Bool → Bool → ℕ
unfolding length_score
opportunity_score size brandable dot_com listed known =
    length_score size
    + points 2 brandable
    + (if dot_com then 2 else points 1 listed)
    + points 1 known

unfoldable pub level_of : ℕ → OpportunityLevel
level_of score =
    if leb 6 score
    then OpportunityLevel.high
    else if leb 3 score
    then OpportunityLevel.medium
    else OpportunityLevel.low

-- `opportunity`: its level, and its reasons.
unfoldable pub opportunity_level : Input → OpportunityLevel
opportunity_level i =
    let label = label_of i.domain in
    let tld = tld_of i.domain in
    level_of (
      opportunity_score (length label) (is_brandable label) (is_com tld) (is_listed tld)
        (is_some i.last_checked_at && not (is_unknown i.availability)))

unfoldable pub opportunity_reasons : Input → List Reason
opportunity_reasons i =
    let label = label_of i.domain in
    when (leb (length label) 8) short_domain
    ++ (when (is_brandable label) brandable_pattern ++ when (is_com (tld_of i.domain)) strong_tld)
