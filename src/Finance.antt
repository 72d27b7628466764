-- ===== src/Finance.antt =====
-- internal/finance: exact decimals and the cost of a domain.
pub mod Decimal
pub mod Engine
pub mod Summary
mod Tests
