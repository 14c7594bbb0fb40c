-- ===== src/Timers.antt =====
-- The timers of the daemon (src/timers.rs): the table of running timers, and the fires that count.
pub mod Table
pub mod Stale
pub mod Once
