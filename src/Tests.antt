-- ===== src/Tests.antt =====
-- Runs of the model at concrete inputs.
mod Samples
mod Engine
mod Modes
mod Devices
mod Agent
mod Login
mod Daemon
mod Clock
mod Knobs
mod Session
mod Panels
