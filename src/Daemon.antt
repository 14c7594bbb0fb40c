-- ===== src/Daemon.antt =====
-- The daemon around the engine (src/main.rs).
pub mod State
pub mod Execute
pub mod Reload
pub mod Loop
pub mod Ends
pub mod Rule
pub mod NotStuck
pub mod Frames
pub mod Delivered
pub mod Answers
pub mod Simulates
pub mod Living
pub mod Links
pub mod Reached
pub mod Booted
pub mod Start
