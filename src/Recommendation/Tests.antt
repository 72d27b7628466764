-- ===== src/Recommendation/Tests.antt =====
-- Recommendations by example: a domain to renew, one to drop, and one that was never checked.
use domains_checker_infomati.Base.{◌≡◌, some, refl, true}
use domains_checker_infomati.Base.Text.{codes, lower, trim_dot, trim_space}
use domains_checker_infomati.Status.{
  Availability, DnsStatus, HttpStatus, RedirectStatus, IspStatus, TlsStatus,
}
use domains_checker_infomati.Recommendation.Types.{
  Input, Action, OpportunityLevel, Lifecycle, SourceStatus, Priority,
}
use domains_checker_infomati.Recommendation.Engine.{
  evaluate, expiring_soon, bad_dns, bad_tls, conclude, add, start,
}
use domains_checker_infomati.Recommendation.Opportunity.{
  opportunity_level, level_of, opportunity_score, label_of, tld_of, is_brandable, is_com, is_listed,
  length_score, opportunity_reasons,
}

abbrev healthy : Input
healthy = record {
  domain = codes "Example.com.";
  lifecycle = Lifecycle.active;
  source_status = SourceStatus.present;
  priority = Priority.high;
  monitoring = true;
  availability = Availability.active;
  dns = DnsStatus.ok;
  http = HttpStatus.ok;
  redirect = RedirectStatus.permanent;
  isp = IspStatus.not_detected;
  tls = TlsStatus.valid;
  status_confidence = 85;
  last_checked_at = some 1;
  expiration_at = some 50;
  renewal_amount = "12.50";
  renewal_currency = "USD";
  open_incidents = 0;
  incidents_90_days = 0;
  downtime_changes = 0;
}

abbrev unused : Input
unused = record healthy { lifecycle = Lifecycle.inactive; priority = Priority.low }

renews : (evaluate healthy 40).action ≡ Action.renew
unfolding evaluate conclude add start opportunity_reasons opportunity_level level_of
    opportunity_score length_score label_of tld_of is_brandable is_com is_listed expiring_soon
    bad_dns bad_tls trim_dot lower trim_space
renews = refl

level : opportunity_level healthy ≡ OpportunityLevel.high
unfolding opportunity_level level_of opportunity_score length_score label_of tld_of is_brandable
    is_com is_listed trim_dot lower
level = refl
