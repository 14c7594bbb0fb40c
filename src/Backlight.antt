-- ===== src/Backlight.antt =====
-- The backlight controller (src/backlight.rs).
pub mod Levels
pub mod Controller
pub mod Scale
pub mod Restore
pub mod RoundTrip
pub mod Discover
pub mod Best
