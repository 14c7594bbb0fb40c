-- ===== src/Core/Modes.antt =====
-- Choosing a mode: low battery, auto-switching, and the commands that put a mode into effect
-- (src/core.rs).
use ampered.Prelude.{
  ℕ, ◌+◌, min, Bool, true, false, not, List, [], ◌∷◌, ◌++◌, Option, none, some, String, str_eq,
  if◌then◌else◌, leb, same,
}
use ampered.Config.Sections.{Config, Mode, get_mode, contains_key}
use ampered.Ipc.{StateEvent}
use ampered.Core.Types.{
  State, Phase, ModeSelection, mode_name, Stages, no_stages, from_mode, PowerSnapshot, Command,
  Engine, Outcome,
}

-- `saturating_add` on `u8`.
abbrev pub u8_saturating_add : ℕ → ℕ → ℕ
u8_saturating_add a b = min (a + b) 255

abbrev pub clears_at : ℕ → ℕ
clears_at threshold = min (u8_saturating_add threshold 5) 100

-- `Engine::compute_low` over the fields that it reads: the threshold and the flag.
unfoldable pub compute_low : ℕ → Bool → Option ℕ → Bool
compute_low threshold low none = false
compute_low threshold low (some percent) =
    if leb percent threshold then true else if leb (clears_at threshold) percent then false else low

unfoldable pub engine_low : Engine → Option ℕ → Bool
unfolding compute_low
engine_low e battery = compute_low e.config.auto_mode.low_battery_percent e.low battery

abbrev pub first_key : List (String × Mode) → String
first_key [] = ""
first_key ((key, mode) ∷ rest) = key

abbrev pub is_empty : String → Bool
is_empty s = str_eq s ""

unfoldable pub auto_mode_name : Engine → String
unfolding mode_name
auto_mode_name e =
    if not auto_mode.enabled
    then if not (is_empty (mode_name e.mode)) then mode_name e.mode else first_key modes
    else if e.power.ac
    then auto_mode.on_ac
    else if e.low
    then auto_mode.on_low_battery
    else auto_mode.on_battery
  where
    open e.config use {auto_mode, modes}

abbrev pub is_auto : ModeSelection → Bool
is_auto (ModeSelection.auto name) = true
is_auto (ModeSelection.manual name) = false

-- Re-evaluates an auto mode; `true` when a different one was picked.
unfoldable pub select_auto_mode : Engine → Engine × Bool
unfolding auto_mode_name mode_name
select_auto_mode e =
    if not (is_auto e.mode)
    then (e, false)
    else if str_eq (auto_mode_name e) (mode_name e.mode)
    then (e, false)
    else (record e { mode = ModeSelection.auto (auto_mode_name e) }, true)

stages_of : Option Mode → Stages
unfolding from_mode
stages_of none = no_stages
stages_of (some mode) = from_mode mode

-- `Engine::stages`: the idle stages of the current mode.
unfoldable pub stages : Engine → Stages
unfolding stages_of get_mode mode_name
stages e = stages_of (get_mode e.config.modes (mode_name e.mode))

-- The phases in which the idle stages are off for the cycle.
unfoldable pub is_past_grace : State → Bool
is_past_grace (State.long_sleep Phase.armed) = true
is_past_grace (State.long_sleep Phase.sleeping) = true
is_past_grace (State.long_sleep Phase.checking) = true
is_past_grace _ = false

apply_commands : String → List Command
apply_commands name = if is_empty name then [] else Command.apply_mode name ∷ []

unfoldable pub mode_commands : Engine → List Command
unfolding apply_commands is_past_grace mode_name
mode_commands e =
    apply_commands (mode_name e.mode)
    ++ Command.replace_idle_stages (if is_past_grace e.state then no_stages else stages e) ∷ []

unfoldable pub mode_changed : Engine → List Command
unfolding mode_name
mode_changed e = mode_commands e ++ Command.broadcast (StateEvent.mode (mode_name e.mode)) ∷ []

unfoldable pub reapply_auto_mode : Engine → Outcome
reapply_auto_mode e =
    let (e', changed) = select_auto_mode e in (e', if changed then mode_changed e' else [])

-- `Engine::new`.
unfoldable pub new : Config → PowerSnapshot → Engine
unfolding engine_low auto_mode_name
new config power =
    let blank : Engine = record {
      config = config;
      state = State.active;
      mode = ModeSelection.auto "";
      power = power;
      low = false;
      inhibits = [];
      next_inhibit_id = 1;
      external = [];
      pending_sleep = false;
      suspend_from = State.active;
      idle_connected = false;
      hibernate_available = true;
      sleep_failures = 0;
      interrupted = false;
    } in
    let engine : Engine = record blank { low = engine_low blank power.battery } in
    record engine { mode = ModeSelection.auto (auto_mode_name engine) }

-- `Engine::start`.
unfoldable pub start : Engine → List Command
start e = mode_commands e

-- `Engine::restore_manual_mode`.
unfoldable pub restore_manual_mode : Engine → String → Engine × Bool
restore_manual_mode e name =
    if not (contains_key e.config.modes name)
    then (e, false)
    else (record e { mode = ModeSelection.manual name }, true)

-- `Engine::set_config`.
unfoldable pub set_config : Engine → Config → Outcome
unfolding engine_low auto_mode_name
set_config e config =
    let loaded : Engine = record e { config = config } in
    let weighed : Engine = record loaded { low = engine_low loaded e.power.battery } in
    let chosen : Engine =
      if is_auto e.mode
      then record weighed { mode = ModeSelection.auto (auto_mode_name weighed) }
      else weighed in
    (chosen, mode_commands chosen)

unfoldable pub on_battery : Engine → ℕ → Outcome
on_battery e percent =
    let e' : Engine = record e { power = record e.power { battery = some percent } } in
    let low = engine_low e' (some percent) in
    if same low e.low then (e', []) else reapply_auto_mode (record e' { low = low })
