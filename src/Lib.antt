-- ===== src/Lib.antt =====
-- A verification library of ampered, the power daemon.
--
-- The daemon is a state machine, the engine (src/core.rs), which takes events and returns commands,
-- and the parts around it, which turn the world into events and commands into effects: the power
-- supply and the timers send events, the backlight and the wake alarm carry out commands, the
-- configuration is checked before the engine sees it, and the IPC server carries requests and
-- answers. The engine has no clock and does no I/O.
--
-- The modules, and the files of the repository that they model:
--   * Prelude: names of the libraries, Boolean tests, lists, text as `format!` builds it, and its parts
--     as `trim`, `lines` and `split` give them.
--   * Config (src/config.rs): Durations (nanoseconds), Sections (the structs, `sysfs_writes`), Validate
--     (`Config::validate`, `Mode::validate`), Accepted (what an accepted config is).
--   * Ipc (src/ipc.rs): the types of requests, answers and broadcasts; Server (`Server`, the wire form of a
--     response, and what a connection makes of a line).
--   * Core (src/core.rs): Types (states, events, commands, `Engine`), Modes (the choice of a mode,
--     `new`, `start`, `set_config`, the low-battery flag), Sleep (inhibitors, `request_sleep`), Cycle
--     (the server cycle), Events (the handlers of events), Status and Requests (`on_ipc`), Handle
--     (`dispatch`, `handle` and its broadcasts). A method on `&mut self` is a function from an engine to
--     an engine and its commands. Machine is a specification: what the commands do to the screen, the
--     brightness, the alarm, the timers and the idle stages, each command succeeding; the modules from
--     Invariant on prove what holds of the engine and of that machine together.
--   * Backlight (src/backlight.rs): Levels (percentages and steps of a fade, with the widths of the
--     machine integers), Controller (`dim_to`, `restore`, `fade_to`, `reconfigure`, `settle`, `info`), and
--     the proofs in Scale, Restore and RoundTrip; Discover (`SysfsBacklight::discover`) and Best. The fade
--     task is one operation per round.
--   * Power (src/power/supply.rs, src/power/mod.rs): Supply (the snapshot, the average, the differences,
--     the rounds of the task), Average and Tracking; Modes (`ModeApplier`, `detect_conflicts` of
--     src/power/modes.rs) and Applying.
--   * Timers (src/timers.rs): Table (the operations), Stale and Once. The channel is a list, and the
--     sleeping task is the operation `expire`.
--   * Wake (src/sleep/planner.rs, src/sleep/rtc.rs): Planner; Rtc (`Wakealarm`, `Rtcwake`), Decimals and Alarm.
--   * Agent (src/agent.rs): Link (the operations of `AgentLink`; a channel is the list of what was sent on
--     it, and the agent's side of it is the specification `view`), Resend and Streams. The agent itself:
--     Watcher (`Watcher` of src/idle.rs) and Watching; Reconnect (`session`, `reconnect_loop`) with Silent,
--     Asked and Mourned; Screen (`Display` of src/display.rs) and Settling;
--     Session (`Agent` of src/bin/ampered-agent.rs, `parse_stages`), Reporting and Wanted.
--   * Logind (src/logind_conf.rs, src/logind.rs): Settings (`effective_keys`, `from_keys`, `lid_actions`,
--     `check`) and Effective; Files (`collect_files`, `login_section`) and Shadowing; Actor (`LogindHandle`,
--     `executor`, `blocking_inhibitors`) and Executor; Idle (`fallback_event`, `idle_hint_poll`); Saved
--     (`SavedState`, the manual mode).
--   * Daemon (src/main.rs, src/notify.rs): State (`Daemon`, `Notifier`, `report`, `remember`), Execute
--     (`Daemon::execute` with all its commands, `enrich_status`), Reload, Loop (the queue of commands
--     and a round of the loop), Start (`run` up to the first event). The proofs: Ends, NotStuck,
--     Answers with Delivered, and Reached with Simulates, Living, Links (the agent link) and Booted, on
--     Rule (an invariant of the queue) and Frames (what a reload leaves alone).
--   * Tests: the theorems at concrete inputs.
--
-- Numbers are natural numbers. The additions that the code may overflow keep their wrap-around: the
-- counters of `u8` and `u64` in the engine, the `u32` and `i64` of a fade. Durations are `u64` seconds and
-- nanoseconds in the code and are only compared and passed on in the engine. A `BTreeMap` of modes is
-- the list of its entries in key order.
--
-- Fuel: `decimal` writes 20 digits, as many as a `u64` has. `settle` runs as many rounds of the fade as it
-- has steps left, and the theorems on it show that the goal is reached. `drain`, the queue of commands
-- of the main loop, takes fuel, and a theorem shows that every queue ends with enough of it. All else is
-- structural.
--
-- Parameters: the text form of a duration (the crate humantime) and of a time, the RTC behind the trait
-- `RtcAlarm`, what the bus answers, and what `Config::load` and `serde_json` make of a text. One theorem
-- assumes that humantime reads back what it wrote, and one that the attribute `wakealarm` takes a time
-- that is more than two seconds ahead, as the kernel documents it; no other assumes anything of them.
-- What the world answers while the commands are carried out is a function of how many were carried
-- out, so it may change between any two.
--
-- Not modelled: reading TOML and JSON (serde), the sockets and tasks of the IPC server, the D-Bus
-- connection and the delay lock, sysfs and Wayland I/O, the udev socket, subprocesses, log lines,
-- the signal handlers, the watchdog, the command line, and the retries of the
-- agent's connection to the daemon. In the daemon an applied mode and a hook that was run are entries of a list.

pub mod Prelude
pub mod Config
pub mod Ipc
pub mod Core
pub mod Backlight
pub mod Power
pub mod Wake
pub mod Timers
pub mod Tests
pub mod Agent
pub mod Logind
pub mod Daemon
