-- ===== src/Classification.antt =====
-- internal/classification: the decision on one run's evidence, and the effective state over runs.
pub mod Decision
pub mod Parts
pub mod Evidence
pub mod Classify
pub mod Effective
mod Tests
