-- ===== src/Core/Cycle.antt =====
-- The long-sleep server cycle (src/core.rs).
use ampered.Prelude.{
  ℕ, Bool, true, false, not, List, [], ◌∷◌, ◌++◌, Option, none, some, String, if◌then◌else◌, leb,
}
use ampered.Config.Durations.{Duration}
use ampered.Config.Sections.{SleepMethod, CriticalAction}
use ampered.Ipc.{StateEvent}
use ampered.Core.Types.{
  State, Phase, no_stages, mode_name, TimerId, Command, Engine, Outcome, u8_add, max_sleep_failures,
  emit_before, emit_after,
}
use ampered.Core.Modes.{select_auto_mode, mode_commands}
use ampered.Core.Sleep.{cancel_pending_sleep, sleep_blockers, is_blocked}

-- Back to `Active` from any phase, with the alarm and timers gone.
unfoldable pub leave_cycle : Engine → Outcome
unfolding mode_name
leave_cycle e =
    let (e', changed) = select_auto_mode (record e { state = State.active }) in
    (
      e',
      Command.cancel_wake
          ∷ (mode_commands e'
              ++ ((if changed
                    then Command.broadcast (StateEvent.mode (mode_name e'.mode)) ∷ []
                    else [])
                  ++ (Command.undim ∷ (Command.screen true ∷ [])))),
    )

hook_commands : Option String → List Command
hook_commands none = []
hook_commands (some hook) = Command.run_hook hook ∷ []

-- The cycle ends because AC is back.
unfoldable pub power_is_back : Engine → Outcome
unfolding hook_commands
power_is_back e = emit_before (hook_commands e.config.server.resume_hook) (leave_cycle e)

-- An attempt that did not end in a suspend.
unfoldable pub cycle_failure : Engine → Outcome
cycle_failure e =
    let e' : Engine = record e { sleep_failures = u8_add e.sleep_failures 1 } in
    if leb max_sleep_failures e'.sleep_failures
    then leave_cycle e'
    else (e', Command.start_timer TimerId.awake_window e.config.server.awake_window ∷ [])

at_most : ℕ → Option ℕ → Bool
at_most limit none = false
at_most limit (some percent) = leb percent limit

unfoldable pub battery_critical : Engine → Bool
unfolding at_most
battery_critical e = at_most e.config.server.battery_critical_percent e.power.battery

abbrev pub critical_command : CriticalAction → Bool → Command
critical_command CriticalAction.hibernate true = Command.suspend SleepMethod.hibernate true
critical_command CriticalAction.hibernate false = Command.power_off
critical_command CriticalAction.poweroff available = Command.power_off

-- After a wake in the cycle, and again when the window closes.
unfoldable pub check_power : Engine → Outcome
unfolding power_is_back battery_critical
check_power e = if e.power.ac then power_is_back e else (
  record e { state = State.long_sleep Phase.checking },
  (if battery_critical e
        then Command.broadcast (StateEvent.long_sleep "critical" none)
          ∷ (critical_command e.config.server.critical_action e.hibernate_available ∷ [])
        else [])
      ++ Command.start_timer TimerId.awake_window e.config.server.awake_window ∷ [],
)

unfoldable pub enter_grace : Duration → Engine → Outcome
unfolding cancel_pending_sleep
enter_grace delay e =
    emit_after
      (cancel_pending_sleep (record e {
        state = State.long_sleep Phase.grace;
        sleep_failures = 0;
        interrupted = false;
      }))
      (Command.start_timer TimerId.grace delay ∷ [])

-- Schedule the wake; the suspend follows `WakeScheduled(true)`.
unfoldable pub arm : Bool → Engine → Outcome
arm first e = (
  record e { state = State.long_sleep Phase.armed },
  (if first then Command.replace_idle_stages no_stages ∷ [] else [])
      ++ Command.schedule_wake e.config.server.check_interval ∷ [],
)

unfoldable pub is_armed : State → Bool
is_armed (State.long_sleep Phase.armed) = true
is_armed _ = false

unfoldable pub on_wake_scheduled : Bool → Engine → Outcome
unfolding is_armed cycle_failure power_is_back
on_wake_scheduled armed e =
    if not (is_armed e.state)
    then (e, [])
    else if not armed
    then cycle_failure e
    else if e.power.ac
    then power_is_back e
    else if is_blocked (sleep_blockers e)
    then cycle_failure e
    else (e, Command.suspend e.config.sleep.method false ∷ [])

cancel_commands : Phase → List Command
cancel_commands Phase.grace = Command.cancel_timer TimerId.grace ∷ []
cancel_commands Phase.armed = Command.cancel_timer TimerId.awake_window ∷ []
cancel_commands Phase.checking = Command.cancel_timer TimerId.awake_window ∷ []
cancel_commands Phase.sleeping = []

unfoldable pub cancel_cycle : Phase → Engine → Outcome
unfolding cancel_commands
cancel_cycle phase e =
    emit_before (cancel_commands phase) (leave_cycle (record e { interrupted = false }))

-- `Engine::resume_cycle`: pick the cycle up at `Checking`.
unfoldable pub resume_cycle : Engine → Outcome
resume_cycle e = (
  record e { state = State.long_sleep Phase.checking },
  Command.replace_idle_stages no_stages
      ∷ (Command.start_timer TimerId.awake_window e.config.server.awake_window ∷ []),
)
