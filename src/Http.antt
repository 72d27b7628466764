-- ===== src/Http.antt =====
-- internal/httpcheck: HTTP attempts, their redirects and their content.
pub mod Types
pub mod Content
pub mod Requests
pub mod Redirects
pub mod Config
pub mod Checker
mod Tests
