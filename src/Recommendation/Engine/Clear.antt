-- ===== src/Recommendation/Engine/Clear.antt =====
-- Without complete evidence nothing but a review is recommended
-- (internal/recommendation/engine.go).
use domains_checker_infomati.Base.{
  ℕ, ◌≡◌, ◌≢◌, ◌⊎◌, refl, sym, ◌∙◌, List, [], ◌∷◌, String, true, false, arith, eq_iff, is_some,
  str_eq, ltb,
}
use domains_checker_infomati.Base.Text.{trim_space}
use domains_checker_infomati.Status.{Availability, DnsStatus, IspStatus, is_unavailable, is_unknown}
use domains_checker_infomati.Recommendation.Reasons.{Reason}
use mathlib.Core.Bool.{true≢false}
use domains_checker_infomati.Recommendation.Types.{Input, Result, Action}
use domains_checker_infomati.Recommendation.Opportunity.{opportunity_reasons}
use domains_checker_infomati.Recommendation.Engine.{
  add, conclude, bad_dns, bad_tls, dns_unknown, isp_unknown, isp_blocks,
}

-- The monitoring is complete and shows no trouble, and the cost of a renewal is known.
pub record IsClear (i : Input) : Type 0 where
  pub checked : is_some i.last_checked_at ≡ true
  pub seen : i.availability ≢ Availability.unknown
  pub up : i.availability ≢ Availability.unavailable
  pub resolved : i.dns ≡ DnsStatus.ok
  pub unblocked : (i.isp ≡ IspStatus.not_detected) ⊎ (i.isp ≡ IspStatus.blank)
  pub trusted : bad_tls i.tls ≡ false
  pub quiet : i.open_incidents ≡ 0
  pub priced : trim_space i.renewal_amount ≢ ""
  pub currency : trim_space i.renewal_currency ≢ ""

pub add-action : (xs : List Reason) (r : Result) → (add xs r).action ≡ r.action
unfolding add
add-action [] r = refl
add-action (x ∷ xs) r = add-action xs _

pub conclude-action :
    (i : Input) (a : Action) (n : ℕ) (rs : List Reason) → (conclude i a n rs).action ≡ a
unfolding conclude
conclude-action i a n rs = add-action (opportunity_reasons i) _ ∙ add-action rs _

pub nothing_settled :
    (i : Input) (n : ℕ) (rs : List Reason)
    → ¬ ((conclude i Action.review n rs).action ≢ Action.review)
nothing_settled i n rs h = h (conclude-action i Action.review n rs)

abbrev pub Settles : Result → Type 0
Settles r = r.action ≢ Action.review

pub known_availability : (a : Availability) → is_unknown a ≡ false → a ≢ Availability.unknown
known_availability a h e = ground arith

pub available : (a : Availability) → is_unavailable a ≡ false → a ≢ Availability.unavailable
available a h e = ground arith

pub healthy_dns : (d : DnsStatus) → dns_unknown d ≡ false → bad_dns d ≡ false → d ≡ DnsStatus.ok
unfolding bad_dns
healthy_dns d h k = ground arith

pub unblocked_isp :
    (s : IspStatus)
    → isp_unknown s ≡ false
    → isp_blocks s ≡ false
    → (s ≡ IspStatus.not_detected) ⊎ (s ≡ IspStatus.blank)
unblocked_isp s h k = ground arith

pub stated : (s : String) → str_eq s "" ≡ false → s ≢ ""
stated s h e = true≢false (sym ((eq_iff s "").1 e) ∙ h)

pub none_open : (n : ℕ) → ltb 0 n ≡ false → n ≡ 0
none_open n h = ground arith
