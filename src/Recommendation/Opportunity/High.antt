-- ===== src/Recommendation/Opportunity/High.antt =====
-- When the opportunity of a domain is high (internal/recommendation/engine.go).
use domains_checker_infomati.Base.{
  ℕ, ◌≤◌, ◌≡◌, ◌↔◌, ◌⊎◌, Bool, true, not, ◌&&◌, arith, is_some, length,
}
use domains_checker_infomati.Status.{is_unknown}
use domains_checker_infomati.Recommendation.Types.{Input, OpportunityLevel}
use domains_checker_infomati.Recommendation.Opportunity.{
  opportunity_score, opportunity_level, level_of, length_score, label_of, tld_of, is_com, is_listed,
  is_brandable,
}

level_high :
    (n : ℕ) (brandable dot_com listed known : Bool)
    → (level_of (opportunity_score n brandable dot_com listed known) ≡ OpportunityLevel.high) ↔ (
        (brandable ≡ true)
        × (n ≤ 12)
        × ((dot_com ≡ true) ⊎ (listed ≡ true) × (n ≤ 8))
        × ((known ≡ true) ⊎ (dot_com ≡ true) × (n ≤ 8)))
unfolding level_of opportunity_score length_score
level_high n brandable dot_com listed known = (λ h. ground arith, λ h. ground arith)

-- The opportunity of a domain is high exactly if its first label has neither hyphen nor digit and at
-- most 12 characters, its top level is com, or one of net, org, co and th with at most 8 characters
-- in the label, and the domain was checked with a known result, or has a label of at most 8
-- characters under com.
pub opportunity_level-high :
    (i : Input)
    → let n = length (label_of i.domain) in
      let tld = tld_of i.domain in
      (opportunity_level i ≡ OpportunityLevel.high) ↔ (
        (is_brandable (label_of i.domain) ≡ true)
        × (n ≤ 12)
        × ((is_com tld ≡ true) ⊎ (is_listed tld ≡ true) × (n ≤ 8))
        × (((is_some i.last_checked_at && not (is_unknown i.availability)) ≡ true)
            ⊎ (is_com tld ≡ true) × (n ≤ 8)))
unfolding opportunity_level
opportunity_level-high i = level_high _ _ _ _ _
