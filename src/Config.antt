-- ===== src/Config.antt =====
-- The configuration (src/config.rs): its sections, and the durations that they hold.
pub mod Durations
pub mod Sections
pub mod Validate
pub mod Accepted
