-- ===== src/Finance/Summary.antt =====
-- internal/finance/summary.go: the budget of all domains in one currency.
pub mod Books
pub mod Windows
pub mod Count
pub mod Entries
pub mod Step
pub mod Accounts
pub mod Hits
pub mod Sorts
pub mod Spans
mod Tests
