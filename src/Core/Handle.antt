-- ===== src/Core/Handle.antt =====
-- `Engine::dispatch` and `Engine::handle` (src/core.rs).
use ampered.Prelude.{
  Bool, true, false, List, [], ◌∷◌, ◌++◌, Option, none, some, String, if◌then◌else◌,
}
use ampered.Config.Durations.{Duration}
use ampered.Ipc.{StateEvent}
use ampered.Core.Types.{State, Phase, phase_text, state_text, Event, Command, Engine, Outcome}
use ampered.Core.Modes.{on_battery}
use ampered.Core.Cycle.{on_wake_scheduled}
use ampered.Core.Events.{
  on_idle, on_activity, on_ac_changed, on_suspending, on_resumed, on_timer, on_sleep_blocked,
  on_sleep_failed, in_cycle,
}
use ampered.Core.Status.{server_phase}
use ampered.Core.Requests.{on_ipc}

unfoldable pub on_shutdown : Engine → Outcome
unfolding in_cycle
on_shutdown e = (
  record e { state = State.active },
  (if in_cycle e.state then Command.cancel_wake ∷ [] else [])
      ++ (Command.undim ∷ (Command.screen true ∷ (Command.shutdown ∷ []))),
)

abbrev pub same_phase : Phase → Phase → Bool
same_phase Phase.grace Phase.grace = true
same_phase Phase.armed Phase.armed = true
same_phase Phase.sleeping Phase.sleeping = true
same_phase Phase.checking Phase.checking = true
same_phase _ _ = false

-- The derived `==` of `State`.
abbrev pub same_state : State → State → Bool
same_state State.active State.active = true
same_state State.dimmed State.dimmed = true
same_state State.screen_off State.screen_off = true
same_state State.suspending State.suspending = true
same_state State.sleeping State.sleeping = true
same_state (State.long_sleep p) (State.long_sleep q) = same_phase p q
same_state _ _ = false

announced_phase : State → Engine → State → Option String
unfolding phase_text
announced_phase from e (State.long_sleep phase) = some (phase_text phase)
announced_phase (State.long_sleep phase) e to = some (server_phase e)
announced_phase _ e _ = none

phase_commands : Option String → List Command
phase_commands none = []
phase_commands (some phase) = Command.broadcast (StateEvent.long_sleep phase none) ∷ []

-- What `handle` adds after a dispatch that changed the state.
unfoldable pub announce : State → Engine → List Command
unfolding announced_phase phase_commands
announce from e =
    if same_state from e.state
    then []
    else Command.broadcast (StateEvent.state (state_text from) (state_text e.state))
      ∷ phase_commands (announced_phase from e e.state)

module _ (humantime : Duration → String) where
  unfoldable pub dispatch : Event → Engine → Outcome
  unfolding on_shutdown
  dispatch (Event.idle stage) e = on_idle stage e
  dispatch Event.activity e = on_activity e
  dispatch (Event.ac_changed ac) e = on_ac_changed ac e
  dispatch (Event.battery percent) e = on_battery e percent
  dispatch Event.suspending e = on_suspending e
  dispatch Event.resumed e = on_resumed false e
  dispatch Event.resumed_by_user e = on_resumed true e
  dispatch (Event.timer id) e = on_timer id e
  dispatch (Event.ipc id request) e = on_ipc humantime id request e
  dispatch (Event.idle_backend_changed connected) e = (record e { idle_connected = connected }, [])
  dispatch (Event.hibernate_available available) e =
      (record e { hibernate_available = available }, [])
  dispatch (Event.inhibitors list) e = (record e { external = list }, [])
  dispatch (Event.sleep_blocked list) e = on_sleep_blocked list e
  dispatch Event.sleep_failed e = on_sleep_failed e
  dispatch (Event.wake_scheduled armed) e = on_wake_scheduled armed e
  dispatch Event.reload_requested e = (e, Command.reload none ∷ [])
  dispatch Event.shutdown_requested e = on_shutdown e

  unfoldable pub handle : Event → Engine → Outcome
  handle event e = let (e', commands) = dispatch event e in (e', commands ++ announce e.state e')

  -- The engine after a list of events.
  unfoldable pub run : List Event → Engine → Engine
  run [] e = e
  run (event ∷ events) e = run events (handle event e).0
