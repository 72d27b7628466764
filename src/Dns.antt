-- ===== src/Dns.antt =====
-- internal/dnscheck: DNS queries, their results, and the comparison of two resolvers.
pub mod Types
pub mod Compare
pub mod Query
pub mod Trace
mod Tests
mod Checks
