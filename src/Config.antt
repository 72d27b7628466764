-- ===== src/Config.antt =====
-- internal/config: the settings that the environment gives, with their defaults and bounds.
pub mod Settings
pub mod Env
pub mod Sources
pub mod Timers
pub mod Checks
mod Links
mod Bounds
pub mod Valid
mod Durations
pub mod Loaded
mod Pool
mod Tests
