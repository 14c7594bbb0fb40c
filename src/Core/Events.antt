-- ===== src/Core/Events.antt =====
-- The handlers of the events that are no requests (src/core.rs).
use ampered.Prelude.{
  ℕ, Bool, true, false, not, ◌&&◌, ◌||◌, List, [], ◌∷◌, Option, none, some, if◌then◌else◌, ◌==◌,
  same,
}
use ampered.Config.Sections.{ServerTrigger}
use ampered.Ipc.{StateEvent}
use ampered.Core.Types.{
  State, Phase, Stage, Inhibit, Inhibitor, TimerId, Command, Engine, Outcome, is_awake, emit_before,
}
use ampered.Core.Modes.{stages, reapply_auto_mode}
use ampered.Core.Sleep.{idle_inhibit, arm_sleep_retry, cancel_pending_sleep, request_sleep}
use ampered.Core.Cycle.{
  leave_cycle, cycle_failure, power_is_back, battery_critical, check_power, enter_grace, arm,
}

-- The arms of `on_idle` once no inhibitor stands in the way.
on_stage : Stage → State → Engine → Outcome
unfolding request_sleep is_awake
on_stage Stage.dim State.active e =
    (record e { state = State.dimmed }, Command.dim e.config.backlight.dim_percent ∷ [])
on_stage Stage.screen_off State.active e =
    (record e { state = State.screen_off }, Command.screen false ∷ [])
on_stage Stage.screen_off State.dimmed e =
    (record e { state = State.screen_off }, Command.screen false ∷ [])
on_stage Stage.sleep state e = if is_awake state then request_sleep false true e else (e, [])
on_stage _ _ e = (e, [])

on_uninhibited : Option Inhibit → Stage → Engine → Outcome
unfolding on_stage
on_uninhibited (some inhibit) stage e = (e, [])
on_uninhibited none stage e = on_stage stage e.state e

unfoldable pub on_idle : Stage → Engine → Outcome
unfolding on_uninhibited idle_inhibit
on_idle stage e = on_uninhibited (idle_inhibit e) stage e

activity_in : State → Engine → Outcome
unfolding cycle_failure
activity_in State.dimmed e = (record e { state = State.active }, Command.undim ∷ [])
activity_in State.screen_off e =
    (record e { state = State.active }, Command.undim ∷ (Command.screen true ∷ []))
activity_in State.suspending e =
    (record e { state = State.active }, Command.undim ∷ (Command.screen true ∷ []))
activity_in (State.long_sleep Phase.armed) e = cycle_failure e
activity_in (State.long_sleep Phase.checking) e =
    emit_before (Command.cancel_timer TimerId.awake_window ∷ [])
      (leave_cycle (record e { interrupted = true }))
activity_in _ e = (e, [])

unfoldable pub on_activity : Engine → Outcome
unfolding cancel_pending_sleep activity_in
on_activity e =
    let (e', commands) = cancel_pending_sleep e in emit_before commands (activity_in e'.state e')

blocked_in : State → Engine → Outcome
unfolding arm_sleep_retry cycle_failure
blocked_in State.suspending e = arm_sleep_retry (record e { state = e.suspend_from })
blocked_in (State.long_sleep Phase.armed) e = cycle_failure e
blocked_in _ e = (e, [])

unfoldable pub on_sleep_blocked : List Inhibitor → Engine → Outcome
unfolding blocked_in
on_sleep_blocked blockers e = blocked_in e.state (record e { external = blockers })

failed_in : State → Engine → Outcome
unfolding on_activity cycle_failure
failed_in State.suspending e = on_activity e
failed_in (State.long_sleep Phase.armed) e = cycle_failure e
failed_in _ e = (e, [])

unfoldable pub on_sleep_failed : Engine → Outcome
unfolding failed_in
on_sleep_failed e = failed_in e.state e

suspending_in : State → Engine → Engine
suspending_in (State.long_sleep phase) e = record e {
  sleep_failures = 0;
  state = State.long_sleep Phase.sleeping;
}
suspending_in _ e = record e { state = State.sleeping }

unfoldable pub on_suspending : Engine → Outcome
unfolding suspending_in
on_suspending e = (suspending_in e.state (record e { pending_sleep = false }), [])

unfoldable pub in_cycle : State → Bool
in_cycle (State.long_sleep phase) = true
in_cycle _ = false

unfoldable pub on_resumed : Bool → Engine → Outcome
unfolding in_cycle check_power
on_resumed by_user e =
    let e' : Engine = record e { pending_sleep = false } in
    if in_cycle e.state
    then if by_user && not e.power.ac
      then leave_cycle (record e' { interrupted = true })
      else check_power e'
    else (
      record e' { state = State.active },
      Command.undim
          ∷ (Command.screen true
              ∷ (Command.replace_idle_stages (stages (record e' { state = State.active })) ∷ [])),
    )

-- `inhibits.remove(pos)` at the `position` of the identifier, if there is one.
unfoldable pub has_inhibit : ℕ → List Inhibit → Bool
has_inhibit id [] = false
has_inhibit id (i ∷ rest) = if i.id == id then true else has_inhibit id rest

unfoldable pub remove_inhibit : ℕ → List Inhibit → List Inhibit
remove_inhibit id [] = []
remove_inhibit id (i ∷ rest) = if i.id == id then rest else i ∷ remove_inhibit id rest

window_in : State → Engine → Outcome
unfolding power_is_back arm check_power battery_critical
window_in (State.long_sleep Phase.armed) e = if e.power.ac then power_is_back e else arm false e
window_in (State.long_sleep Phase.checking) e =
    if e.power.ac || battery_critical e then check_power e else arm false e
window_in _ e = (e, [])

grace_in : State → Engine → Outcome
unfolding arm
grace_in (State.long_sleep Phase.grace) e = arm true e
grace_in _ e = (e, [])

unfoldable pub on_timer : TimerId → Engine → Outcome
unfolding request_sleep window_in grace_in remove_inhibit
on_timer TimerId.sleep_retry e =
    if e.pending_sleep
    then request_sleep false true (record e { pending_sleep = false })
    else (e, [])
on_timer (TimerId.inhibit_expiry id) e = (record e { inhibits = remove_inhibit id e.inhibits }, [])
on_timer TimerId.grace e = grace_in e.state e
on_timer TimerId.awake_window e = window_in e.state e

abbrev is_ac_lost : ServerTrigger → Bool
is_ac_lost ServerTrigger.ac_lost = true
is_ac_lost ServerTrigger.manual = false

-- `reapply_auto_mode`, then the cycle when it is the loss of AC that starts it.
power_changed : Bool → Engine → Outcome
unfolding is_awake enter_grace
power_changed ac e =
    let (e', commands) = reapply_auto_mode e in
    if not ac && is_awake e'.state && server.enabled && is_ac_lost server.trigger
    then emit_before commands (enter_grace server.grace_period e')
    else (e', commands)
  where
    open e.config use {server}

ac_in : State → Bool → Engine → Outcome
unfolding power_changed power_is_back
ac_in (State.long_sleep Phase.grace) true e =
    emit_before (Command.cancel_timer TimerId.grace ∷ [])
      (reapply_auto_mode (record e { state = State.active }))
ac_in (State.long_sleep Phase.checking) true e =
    emit_before (Command.cancel_timer TimerId.awake_window ∷ []) (power_is_back e)
ac_in _ ac e = power_changed ac e

unfoldable pub on_ac_changed : Bool → Engine → Outcome
unfolding ac_in
on_ac_changed ac e =
    if same e.power.ac ac
    then (e, [])
    else emit_before (Command.broadcast (StateEvent.power ac) ∷ [])
        (ac_in e.state ac (record e { power = record e.power { ac = ac } }))
