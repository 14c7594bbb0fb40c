-- ===== src/Power.antt =====
-- The power supply (src/power/supply.rs).
pub mod Supply
pub mod Average
pub mod Tracking
pub mod Modes
pub mod Applying
