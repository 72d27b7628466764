-- ===== src/Recommendation/Engine/Parallel.antt =====
-- The lists of reasons run in parallel (internal/recommendation/engine.go).
use domains_checker_infomati.Base.{
  ℕ, ◌+◌, ◌≡◌, refl, ◌∙◌, String, List, [], ◌∷◌, ◌++◌, Bool, true, false, not, arith, is_some,
  str_eq, leb, ltb, length, length-append, if◌then◌else◌, All,
}
use domains_checker_infomati.Recommendation.Reasons.{
  when, Reason, expiration_unknown, isp_block_review, downtime_history, renewal_cost_unknown,
  inactive_low_priority, permanent_redirect, profit_indicators_high, business_importance,
  expiring_soon_reason, healthy_monitoring, policy_review_required, short_domain, brandable_pattern,
  strong_tld,
}
use domains_checker_infomati.Recommendation.Types.{Input, Result, Action}
use domains_checker_infomati.Recommendation.Opportunity.{
  opportunity_level, opportunity_reasons, label_of, tld_of, is_com, is_brandable,
}
use domains_checker_infomati.Recommendation.Engine.{
  add, start, conclude, evaluate, expiring_soon, is_important,
}
use domains_checker_infomati.Recommendation.Engine.Branches.{evaluate-branches}

-- The four lists of reasons run in parallel.
pub record IsParallel (r : Result) : Type 0 where
  pub th : length r.reasons_th ≡ length r.reason_codes
  pub en : length r.reasons_en ≡ length r.reason_codes
  pub refs : length r.evidence_refs ≡ length r.reason_codes

abbrev pub IsCited : Reason → Type 0
IsCited r = str_eq r.evidence "" ≡ false

pub when-All :
    (b : Bool) (r : Reason) (xs : List Reason)
    → IsCited r
    → All IsCited xs
    → All IsCited (when b r ++ xs)
when-All true r xs h k = (h, k)
when-All false r xs h k = k

pub when_last : (b : Bool) (r : Reason) → IsCited r → All IsCited (when b r)
when_last true r h = (h, tt)
when_last false r h = tt

pub cited :
    (r : Reason) (e : List String)
    → IsCited r
    → length (if str_eq r.evidence "" then e else e ++ r.evidence ∷ []) ≡ length e + 1
cited r e h = rw h (length-append e (r.evidence ∷ []))

pub longer :
    (s t : List String) (x y : String)
    → length s ≡ length t
    → length (s ++ x ∷ []) ≡ length (t ++ y ∷ [])
longer s t x y h = omega (arith, h, length-append s (x ∷ []), length-append t (y ∷ []))

pub add-IsParallel :
    (xs : List Reason) (r : Result) → All IsCited xs → IsParallel r → IsParallel (add xs r)
unfolding add
add-IsParallel [] r h p = p
add-IsParallel (x ∷ xs) r h p = add-IsParallel xs _ h.1 (record {
  th = longer r.reasons_th r.reason_codes x.th x.code p.th;
  en = longer r.reasons_en r.reason_codes x.en x.code p.en;
  refs =
      cited x r.evidence_refs h.0
      ∙ (omega (arith, p.refs, length-append r.reason_codes (x.code ∷ [])));
})

pub opportunity-All : (i : Input) → All IsCited (opportunity_reasons i)
unfolding opportunity_reasons
opportunity-All i =
    let label = label_of i.domain in
    let dot_com = is_com (tld_of i.domain) in
    when-All (leb (length label) 8) short_domain
      (when (is_brandable label) brandable_pattern ++ when dot_com strong_tld) refl
      (when-All (is_brandable label) brandable_pattern (when dot_com strong_tld) refl
        (when_last dot_com strong_tld refl))

pub conclude-IsParallel :
    (i : Input) (a : Action) (n : ℕ) (rs : List Reason)
    → All IsCited rs
    → IsParallel (conclude i a n rs)
unfolding conclude start
conclude-IsParallel i a n rs h =
    let p : IsParallel (
        add (opportunity_reasons i)
          (add rs (record (start (opportunity_level i)) { action = a; confidence_score = n }))) =
      add-IsParallel (opportunity_reasons i) _ (opportunity-All i)
        (add-IsParallel rs _ h (record { th = refl; en = refl; refs = refl })) in
    record { th = p.th; en = p.en; refs = p.refs }

-- Every recommendation has a wording in both languages and a reference to its evidence for each of
-- its reason codes: the four lists are equally long, whatever the input.
pub evaluate-IsParallel : (i : Input) (now : ℕ) → IsParallel (evaluate i now)
evaluate-IsParallel i now =
    let soon = expiring_soon i.expiration_at now in
    evaluate-branches IsParallel i now
      (conclude-IsParallel i _ _ _
        (refl, when_last (not (is_some i.expiration_at)) expiration_unknown refl))
      (conclude-IsParallel i _ _ (isp_block_review ∷ []) (refl, tt))
      (conclude-IsParallel i _ _ _
        (refl, when_last (ltb 0 i.downtime_changes) downtime_history refl))
      (conclude-IsParallel i _ _ (renewal_cost_unknown ∷ []) (refl, tt))
      (conclude-IsParallel i _ _ (inactive_low_priority ∷ permanent_redirect ∷ [])
        (refl, (refl, tt)))
      (conclude-IsParallel i _ _ (profit_indicators_high ∷ []) (refl, tt))
      (conclude-IsParallel i _ _ _ (
        when-All (is_important i.priority) business_importance
          (when soon expiring_soon_reason ++ healthy_monitoring ∷ []) refl
          (when-All soon expiring_soon_reason (healthy_monitoring ∷ []) refl (refl, tt))))
      (conclude-IsParallel i _ _ (policy_review_required ∷ []) (refl, tt))
