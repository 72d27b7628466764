-- ===== src/Safedial.antt =====
-- internal/safedial: connections to validated addresses only.
pub mod Dialer
pub mod Pinned
mod Tests
