-- ===== src/Logind.antt =====
-- The settings of logind that the daemon looks at (src/logind_conf.rs).
pub mod Settings
pub mod Effective
pub mod Files
pub mod Shadowing
pub mod Actor
pub mod Idle
pub mod Executor
pub mod Saved
