-- ===== src/Wake.antt =====
-- The wakes of the long sleep (src/sleep/planner.rs).
pub mod Planner
pub mod Rtc
pub mod Decimals
pub mod Alarm
