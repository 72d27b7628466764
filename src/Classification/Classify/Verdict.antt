-- ===== src/Classification/Classify/Verdict.antt =====
-- What the verdict of one run says about its evidence (internal/classification/classification.go).
use domains_checker_infomati.Base.{
  ◌≤◌, ◌<◌, ◌≡◌, ◌⊎◌, inl, inr, refl, List, Option, Bool, true, false, ◌&&◌, arith, Option-cases,
  leb,
}
use domains_checker_infomati.Base.Text.{Text}
use domains_checker_infomati.Status.{Availability, ContentStatus}
use domains_checker_infomati.Classification.Decision.{Decision, confidence_level}
use domains_checker_infomati.Dns.Types.{Result}
use domains_checker_infomati.Http.Types.{Attempt, OriginResult}
use domains_checker_infomati.Classification.Parts.{effective_attempt}
use domains_checker_infomati.Classification.Evidence.{score_from, score}
use domains_checker_infomati.Classification.Classify.{classify}

-- A final response of the class 2xx with valid content.
pub record IsSound (a : Attempt) : Type 0 where
  pub success : 200 ≤ a.final_status_code
  pub below : a.final_status_code < 300
  pub content :
      (a.content.status ≡ ContentStatus.valid_html)
      ⊎ (a.content.status ≡ ContentStatus.valid_non_html)

both : (Bool → Bool) → Bool
both p = p true && p false

both_sound : (p : Bool → Bool) (b : Bool) → both p ≡ true → p b ≡ true
unfolding both
both_sound p true h = ground arith
both_sound p false h = ground arith

in_range : Availability → Bool → Bool → Bool → Bool → Bool
in_range a ok conclusive repeated discrepancy =
    leb 10 (score_from a ok conclusive repeated discrepancy)
    && leb (score_from a ok conclusive repeated discrepancy) 90

-- The sixteen cases of one availability, by evaluation.
table :
    (a : Availability) → both (λ x. both (λ y. both (λ z. both (λ w. in_range a x y z w)))) ≡ true
unfolding both in_range score_from
table Availability.blank = refl
table Availability.active = refl
table Availability.degraded = refl
table Availability.unavailable = refl
table Availability.unknown = refl

score_from_bounds :
    (a : Availability) (x y z w : Bool) → let n = score_from a x y z w in (10 ≤ n) × (n ≤ 90)
unfolding in_range
score_from_bounds a x y z w =
    let h : in_range a x y z w ≡ true =
      both_sound _ w (both_sound _ z (both_sound _ y (both_sound _ x (table a)))) in
    ground arith

score_bounds :
    (d : Decision) (local alternate : List Result)
    → (10 ≤ score d local alternate) × (score d local alternate ≤ 90)
unfolding score
score_bounds d local alternate = score_from_bounds d.availability _ _ _ _

module _ (parse : Text → Option Text) (local alternate : List Result) (origin : OriginResult) where
  -- Every decision has a confidence between 10 and 90, and the level that belongs to it.
  pub classify_confidence :
      let d = classify parse local alternate origin in
      (10 ≤ d.confidence)
      × (d.confidence ≤ 90)
      × (d.confidence_level ≡ confidence_level d.confidence)
  unfolding classify
  classify_confidence = elim (Option-cases (effective_attempt origin)) [
    | inl e ↦ rw (e, classify) (omega arith, omega arith, refl)
    | inr (a, e) ↦
        let bounds = score_bounds _ local alternate in rw (e, classify) (bounds.0, bounds.1, refl)
  ]
