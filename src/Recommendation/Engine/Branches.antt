-- ===== src/Recommendation/Engine/Branches.antt =====
-- All branches of a recommendation at once (internal/recommendation/engine.go).
use domains_checker_infomati.Base.{
  ℕ, max, [], ◌∷◌, ◌++◌, not, ◌&&◌, ◌||◌, is_some, str_eq, ltb, if_both,
}
use domains_checker_infomati.Base.Text.{trim_space}
use domains_checker_infomati.Status.{is_unknown, is_unavailable, is_active}
use domains_checker_infomati.Recommendation.Reasons.{
  when, data_incomplete, expiration_unknown, isp_block_review, technical_risk_review,
  downtime_history, renewal_cost_unknown, inactive_low_priority, permanent_redirect,
  profit_indicators_high, business_importance, expiring_soon_reason, healthy_monitoring,
  policy_review_required,
}
use domains_checker_infomati.Recommendation.Types.{Input, Result, Action}
use domains_checker_infomati.Recommendation.Opportunity.{opportunity_level}
use domains_checker_infomati.Recommendation.Engine.{
  conclude, decide, evaluate, expiring_soon, bad_dns, bad_tls, is_important, is_minor, is_low,
  is_inactive, is_live, is_archived, is_missing, is_permanent, is_high, dns_unknown, isp_unknown,
  isp_blocks,
}

-- What holds of the conclusion of every branch holds of the recommendation.
pub evaluate-branches :
    (P : Result → Type 0) (i : Input) (now : ℕ)
    → P (
        conclude i Action.review 42
          (data_incomplete ∷ when (not (is_some i.expiration_at)) expiration_unknown))
    → P (conclude i Action.review (max 68 i.status_confidence) (isp_block_review ∷ []))
    → P (
        conclude i Action.review
          (max 65 i.status_confidence)
          (technical_risk_review ∷ when (ltb 0 i.downtime_changes) downtime_history))
    → P (conclude i Action.review 48 (renewal_cost_unknown ∷ []))
    → P (conclude i Action.drop 82 (inactive_low_priority ∷ permanent_redirect ∷ []))
    → P (conclude i Action.profit_opportunity 72 (profit_indicators_high ∷ []))
    → P (
        conclude i Action.renew 84 (
          when (is_important i.priority) business_importance
          ++ (when (expiring_soon i.expiration_at now) expiring_soon_reason
              ++ healthy_monitoring ∷ [])))
    → P (conclude i Action.review 60 (policy_review_required ∷ []))
    → P (evaluate i now)
unfolding evaluate decide
evaluate-branches P i now b1 b2 b3 b4 b5 b6 b7 b8 =
    if_both P
      (not (is_some i.last_checked_at)
        || is_unknown i.availability
        || dns_unknown i.dns
        || isp_unknown i.isp)
      _ _ b1
      (if_both P (isp_blocks i.isp) _ _ b2 (
        if_both P
          (ltb 0 i.open_incidents
            || is_unavailable i.availability
            || bad_dns i.dns
            || bad_tls i.tls)
          _ _ b3
          (if_both P
            (str_eq (trim_space i.renewal_amount) "" || str_eq (trim_space i.renewal_currency) "") _
            _ b4
            (if_both P
              (is_inactive i.lifecycle
                && is_low i.priority
                && is_permanent i.redirect
                && not (is_missing i.source_status))
              _ _ b5
              (if_both P
                (is_high (opportunity_level i)
                  && is_minor i.priority
                  && not (is_archived i.lifecycle))
                _ _ b6
                (if_both P
                  (is_important i.priority
                    || (is_live i.lifecycle
                        && is_active i.availability
                        && expiring_soon i.expiration_at now))
                  _ _ b7 b8))))))
