-- ===== src/Core.antt =====
-- The state machine (src/core.rs).
pub mod Types
pub mod Modes
pub mod Sleep
pub mod Cycle
pub mod Events
pub mod Status
pub mod Requests
pub mod Handle
pub mod Code
pub mod Commands
pub mod Replies
pub mod Frames
pub mod Machine
pub mod Safety
pub mod Invariant
pub mod Alarm
pub mod Deadlines
pub mod Attempts
pub mod Screen
pub mod IdleStages
pub mod Life
pub mod Inhibits
pub mod Numbered
pub mod KnownMode
pub mod Low
pub mod GiveUp
pub mod Findings
