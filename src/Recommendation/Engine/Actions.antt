-- ===== src/Recommendation/Engine/Actions.antt =====
-- Which evidence each recommendation needs (internal/recommendation/engine.go).
use domains_checker_infomati.Base.{
  ℕ, ◌+◌, ◌≤◌, ◌<◌, ◌≡◌, ◌≢◌, ◌⊎◌, Option, some, Bool, if◌then◌else◌,
}
use domains_checker_infomati.Status.{Availability, RedirectStatus}
use domains_checker_infomati.Recommendation.Types.{
  Input, Action, Lifecycle, SourceStatus, Priority, OpportunityLevel,
}
use domains_checker_infomati.Recommendation.Opportunity.{opportunity_level}

pub record IsDrop (i : Input) : Type 0 where
  pub unused : i.lifecycle ≡ Lifecycle.inactive
  pub low : i.priority ≡ Priority.low
  pub moved : i.redirect ≡ RedirectStatus.permanent
  pub listed : i.source_status ≢ SourceStatus.missing_from_source

pub record IsProfit (i : Input) : Type 0 where
  pub level : opportunity_level i ≡ OpportunityLevel.high
  pub minor : (i.priority ≡ Priority.low) ⊎ (i.priority ≡ Priority.medium)
  pub kept : i.lifecycle ≢ Lifecycle.archived

-- The expiry is known and lies in the 90 days from now on.
pub record IsSoon (expiry : Option ℕ) (now : ℕ) : Type 0 where
  pub at : ℕ
  pub known : expiry ≡ some at
  pub ahead : now ≤ at
  pub near : at < now + 7_776_000_000_000_000

pub record IsDue (i : Input) (now : ℕ) : Type 0 where
  pub live : i.lifecycle ≡ Lifecycle.active
  pub works : i.availability ≡ Availability.active
  pub soon : IsSoon i.expiration_at now

abbrev choice : Bool → Bool → Bool → Action
choice d p r =
    if d
    then Action.drop
    else if p
    then Action.profit_opportunity
    else if r
    then Action.renew
    else Action.review
