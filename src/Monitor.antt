-- ===== src/Monitor.antt =====
-- internal/monitor: the run that ends in a decision, and the incidents that decisions open and close.
pub mod Incidents
pub mod Complete
pub mod Runs
pub mod Schedule
mod Tests
