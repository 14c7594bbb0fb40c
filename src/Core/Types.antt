-- ===== src/Core/Types.antt =====
-- The types of src/core.rs: states, events, commands and the engine, with their texts.
use ampered.Prelude.{
  ℕ, ◌+◌, ◌%◌, ◌^◌, Bool, true, false, List, [], ◌∷◌, ◌++◌, Option, none, some, String,
  if◌then◌else◌, concat,
}
use ampered.Config.Durations.{Duration, is_zero}
use ampered.Config.Sections.{Config, Mode, SleepMethod}
use ampered.Ipc.{InhibitWhat, Request, RequestId, Response, StateEvent}

pub data Phase : Type 0 where
  grace armed sleeping checking : Phase

pub data State : Type 0 where
  active : State
  dimmed : State
  screen_off : State
  suspending : State
  sleeping : State
  long_sleep : Phase → State

unfoldable pub is_awake : State → Bool
is_awake State.active = true
is_awake State.dimmed = true
is_awake State.screen_off = true
is_awake _ = false

unfoldable pub phase_text : Phase → String
phase_text Phase.grace = "grace"
phase_text Phase.armed = "armed"
phase_text Phase.sleeping = "sleeping"
phase_text Phase.checking = "checking"

unfoldable pub state_text : State → String
unfolding phase_text concat
state_text State.active = "Active"
state_text State.dimmed = "Dimmed"
state_text State.screen_off = "ScreenOff"
state_text State.suspending = "Suspending"
state_text State.sleeping = "Sleeping"
state_text (State.long_sleep phase) = concat ("LongSleep(" ∷ (phase_text phase ∷ (")" ∷ [])))

pub data ModeSelection : Type 0 where
  auto : String → ModeSelection
  manual : String → ModeSelection

unfoldable pub mode_name : ModeSelection → String
mode_name (ModeSelection.auto name) = name
mode_name (ModeSelection.manual name) = name

unfoldable pub mode_source : ModeSelection → String
mode_source (ModeSelection.auto name) = "auto"
mode_source (ModeSelection.manual name) = "manual"

pub data Stage : Type 0 where
  dim screen_off sleep : Stage

pub record Stages : Type 0 where
  pub dim : Option Duration
  pub screen_off : Option Duration
  pub sleep : Option Duration

-- `Stages::NONE`: idle has no effect at all.
abbrev pub no_stages : Stages
no_stages = record { dim = none; screen_off = none; sleep = none }

abbrev pub enabled : Duration → Option Duration
enabled d = if is_zero d then none else some d

-- `Stages::from_mode`.
unfoldable pub from_mode : Mode → Stages
from_mode mode = record {
  dim = enabled mode.dim_after;
  screen_off = enabled mode.screen_off_after;
  sleep = enabled mode.sleep_after;
}

-- `Stages::get`.
unfoldable pub get_stage : Stages → Stage → Option Duration
get_stage stages Stage.dim = stages.dim
get_stage stages Stage.screen_off = stages.screen_off
get_stage stages Stage.sleep = stages.sleep

pub record Inhibitor : Type 0 where
  pub what : String
  pub who : String
  pub why : String

unfoldable pub inhibitor_text : Inhibitor → String
unfolding concat
inhibitor_text i = concat (i.who ∷ (": " ∷ (i.why ∷ [])))

pub record Inhibit : Type 0 where
  pub id : ℕ
  pub what : InhibitWhat
  pub why : String
  pub ttl : Duration

pub data TimerId : Type 0 where
  grace : TimerId
  sleep_retry : TimerId
  awake_window : TimerId
  inhibit_expiry : ℕ → TimerId

pub data Event : Type 0 where
  idle : Stage → Event
  activity : Event
  ac_changed : Bool → Event
  battery : ℕ → Event
  suspending : Event
  resumed : Event
  resumed_by_user : Event
  timer : TimerId → Event
  ipc : RequestId → Request → Event
  idle_backend_changed : Bool → Event
  hibernate_available : Bool → Event
  inhibitors : List Inhibitor → Event
  sleep_blocked : List Inhibitor → Event
  sleep_failed : Event
  wake_scheduled : Bool → Event
  reload_requested : Event
  shutdown_requested : Event

pub data Command : Type 0 where
  dim : ℕ → Command
  undim : Command
  screen : Bool → Command
  apply_mode : String → Command
  replace_idle_stages : Stages → Command
  suspend : SleepMethod → Bool → Command
  power_off : Command
  schedule_wake : Duration → Command
  cancel_wake : Command
  run_hook : String → Command
  start_timer : TimerId → Duration → Command
  cancel_timer : TimerId → Command
  reply : RequestId → Response → Command
  broadcast : StateEvent → Command
  reload : Option RequestId → Command
  shutdown : Command

-- `PowerSnapshot` of src/power/mod.rs.
pub record PowerSnapshot : Type 0 where
  pub ac : Bool
  pub battery : Option ℕ
  pub batteries : List String

-- `PowerSnapshot::on_ac`.
abbrev pub on_ac : PowerSnapshot
on_ac = record { ac = true; battery = none; batteries = [] }

pub record Engine : Type 0 where
  pub config : Config
  pub state : State
  pub mode : ModeSelection
  pub power : PowerSnapshot
  pub low : Bool
  pub inhibits : List Inhibit
  pub next_inhibit_id : ℕ  -- u64
  pub external : List Inhibitor
  pub pending_sleep : Bool
  pub suspend_from : State
  pub idle_connected : Bool
  pub hibernate_available : Bool
  pub sleep_failures : ℕ  -- u8
  pub interrupted : Bool

abbrev pub max_sleep_failures : ℕ
max_sleep_failures = 3

-- A method on `&mut self` returns the new engine with its commands.
abbrev pub Outcome : Type 0
Outcome = Engine × List Command

-- Fixed-width additions wrap.
abbrev pub u8_add : ℕ → ℕ → ℕ
u8_add a b = (a + b) % 2 ^ 8

abbrev pub u64_add : ℕ → ℕ → ℕ
u64_add a b = (a + b) % 2 ^ 64

-- `commands.extend(…)` after, and commands pushed after, a call.
abbrev pub emit_before : List Command → Outcome → Outcome
emit_before commands o = (o.0, commands ++ o.1)

abbrev pub emit_after : Outcome → List Command → Outcome
emit_after o commands = (o.0, o.1 ++ commands)
