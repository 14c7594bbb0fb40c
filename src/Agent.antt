-- ===== src/Agent.antt =====
-- The daemon's end of the agent stream (src/agent.rs).
pub mod Link
pub mod Resend
pub mod Streams
pub mod Watcher
pub mod Watching
pub mod Screen
pub mod Session
pub mod Settling
pub mod Reporting
pub mod Wanted
pub mod Reconnect
pub mod Mourned
pub mod Asked
pub mod Silent
