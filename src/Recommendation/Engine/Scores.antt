-- ===== src/Recommendation/Engine/Scores.antt =====
-- The scores, the levels and the reasons of a recommendation (internal/recommendation/engine.go).
use domains_checker_infomati.Base.{ℕ, ◌≤◌, ◌<◌, ◌≡◌, ◌↔◌, refl, ◌∙◌, max, List, [], ◌∷◌, arith}
use domains_checker_infomati.Status.{ConfidenceLevel}
use domains_checker_infomati.Recommendation.Reasons.{Reason}
use domains_checker_infomati.Recommendation.Types.{Input, Result, Action}
use domains_checker_infomati.Recommendation.Opportunity.{opportunity_reasons}
use domains_checker_infomati.Recommendation.Engine.{add, conclude, evaluate, confidence_level}
use domains_checker_infomati.Recommendation.Engine.Branches.{evaluate-branches}

-- A level that is the level of the score.
pub record IsGraded (most : ℕ) (r : Result) : Type 0 where
  pub least : 42 ≤ r.confidence_score
  pub bounded : r.confidence_score ≤ most
  pub high : (r.confidence_level ≡ ConfidenceLevel.high) ↔ (70 ≤ r.confidence_score)
  pub medium : (r.confidence_level ≡ ConfidenceLevel.medium) ↔ (r.confidence_score < 70)

add-score : (xs : List Reason) (r : Result) → (add xs r).confidence_score ≡ r.confidence_score
unfolding add
add-score [] r = refl
add-score (x ∷ xs) r = add-score xs _

levels :
    (n : ℕ) (l : ConfidenceLevel)
    → l ≡ confidence_level n
    → 42 ≤ n
    → ((l ≡ ConfidenceLevel.high) ↔ (70 ≤ n)) × ((l ≡ ConfidenceLevel.medium) ↔ (n < 70))
unfolding confidence_level
levels n l e h = ((λ k. ground arith, λ k. ground arith), (λ k. ground arith, λ k. ground arith))

conclude-score :
    (i : Input) (a : Action) (n : ℕ) (rs : List Reason) → (conclude i a n rs).confidence_score ≡ n
unfolding conclude
conclude-score i a n rs = add-score (opportunity_reasons i) _ ∙ add-score rs _

conclude-level :
    (i : Input) (a : Action) (n : ℕ) (rs : List Reason)
    → (conclude i a n rs).confidence_level ≡ confidence_level (conclude i a n rs).confidence_score
unfolding conclude
conclude-level i a n rs = refl

conclude-IsGraded :
    (most : ℕ) (i : Input) (a : Action) (n : ℕ) (rs : List Reason)
    → 42 ≤ n
    → n ≤ most
    → IsGraded most (conclude i a n rs)
conclude-IsGraded most i a n rs lo hi =
    let e = conclude-score i a n rs in
    let lo' : 42 ≤ (conclude i a n rs).confidence_score = rw e lo in
    let (high, medium) = levels _ _ (conclude-level i a n rs) lo' in
    record { least = lo'; bounded = rw e hi; high = high; medium = medium }

-- Every recommendation scores at least 42 and, where the confidence of the status is at most 100, at
-- most 100; its level is high from 70 on, medium below, and so never low.
pub evaluate-IsGraded :
    (i : Input) (now : ℕ) → i.status_confidence ≤ 100 → IsGraded 100 (evaluate i now)
evaluate-IsGraded i now h =
    evaluate-branches (IsGraded 100) i now
      (conclude-IsGraded 100 i _ 42 _ (omega arith) (omega arith))
      (conclude-IsGraded 100 i _ (max 68 i.status_confidence) _ (omega arith) (omega (arith, h)))
      (conclude-IsGraded 100 i _ (max 65 i.status_confidence) _ (omega arith) (omega (arith, h)))
      (conclude-IsGraded 100 i _ 48 _ (omega arith) (omega arith))
      (conclude-IsGraded 100 i _ 82 _ (omega arith) (omega arith))
      (conclude-IsGraded 100 i _ 72 _ (omega arith) (omega arith))
      (conclude-IsGraded 100 i _ 84 _ (omega arith) (omega arith))
      (conclude-IsGraded 100 i _ 60 _ (omega arith) (omega arith))
