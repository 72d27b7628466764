-- ===== src/Domain.antt =====
-- internal/domain: the names of domains.
pub mod Normalize
mod Tests
