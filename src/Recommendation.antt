-- ===== src/Recommendation.antt =====
-- internal/recommendation: what to do with a domain, from its monitoring, cost and name.
pub mod Reasons
pub mod Types
pub mod Opportunity
pub mod Engine
mod Tests
