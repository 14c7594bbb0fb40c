-- ===== src/Core/Deadlines.antt =====
-- The timers that the engine waits for are running.
use ampered.Prelude.{◌≡◌, Bool, true, false, String, List, [], ◌∷◌, ◌++◌, subst, sym}
use ampered.Config.Durations.{Duration}
use ampered.Ipc
use ampered.Ipc.{Response}
use ampered.Core.Types.{Engine, Event, State, Command, Phase}
use ampered.Core.Sleep.{cancel_pending_sleep}
use ampered.Core.Events.{on_activity, on_ac_changed, in_cycle}
use ampered.Core.Requests.{on_ipc}
use ampered.Core.Handle.{handle, dispatch}
use ampered.Core.Code.{handler_code}
use ampered.Core.Invariant.{Inv}
use ampered.Core.Machine.{Machine, perform, fire, after, after-dispatch, reply-inert, effects}

-- A state that only a timer ends has its timer running, and so has a refused sleep.
abbrev pub is_grace : State → Bool
is_grace (State.long_sleep Phase.grace) = true
is_grace _ = false

abbrev pub is_checking : State → Bool
is_checking (State.long_sleep Phase.checking) = true
is_checking _ = false

pub record TimersRun (e : Engine) (m : Machine) : Type 0 where
  pub grace : is_grace e.state ≡ true → m.grace_timer ≡ true
  pub window : is_checking e.state ≡ true → m.window_timer ≡ true
  pub retry : e.pending_sleep ≡ true → m.retry_timer ≡ true

on_activity-TimersRun :
    (e : Engine) (m : Machine)
    → Inv e
    → TimersRun e m
    → TimersRun (on_activity e).0 (perform (on_activity e).1 m)
unfolding on_activity in_cycle
on_activity-TimersRun e m i v = grind effects

on_ac_changed-TimersRun :
    (ac : Bool) (e : Engine) (m : Machine)
    → Inv e
    → TimersRun e m
    → TimersRun (on_ac_changed ac e).0 (perform (on_ac_changed ac e).1 m)
unfolding on_ac_changed cancel_pending_sleep in_cycle
on_ac_changed-TimersRun ac e m i v = grind effects

-- An answer behind an outcome changes nothing here.
with_reply :
    (e' : Engine) (cs : List Command) (id : Ipc.RequestId) (r : Response) (m : Machine)
    → TimersRun e' (perform cs m)
    → TimersRun e' (perform (cs ++ Command.reply id r ∷ []) m)
with_reply e' cs id r m = subst (λ m'. TimersRun e' m') (sym (reply-inert cs id r m))

request-TimersRun :
    (humantime : Duration → String) (id : Ipc.RequestId) (request : Ipc.Request) (e : Engine)
    (m : Machine)
    → Inv e
    → TimersRun e m
    → TimersRun (on_ipc humantime id request e).0 (perform (on_ipc humantime id request e).1 m)
unfolding handler_code in_cycle
request-TimersRun humantime id Ipc.Request.undim e m i v =
    with_reply (on_activity e).0 (on_activity e).1 id Response.ok m (on_activity-TimersRun e m i v)
request-TimersRun humantime id (Ipc.Request.screen Ipc.ScreenState.on) e m i v =
    with_reply (on_activity e).0 (on_activity e).1 id Response.ok m (on_activity-TimersRun e m i v)
request-TimersRun humantime id (Ipc.Request.screen Ipc.ScreenState.off) e m i v = grind effects
request-TimersRun humantime id _ e m i v = grind effects

dispatch-TimersRun :
    (humantime : Duration → String) (event : Event) (e : Engine) (m : Machine)
    → Inv e
    → TimersRun e m
    → TimersRun
        (dispatch humantime event e).0
        (perform (dispatch humantime event e).1 (fire event m))
unfolding handler_code in_cycle
dispatch-TimersRun humantime Event.activity e m i v = on_activity-TimersRun e m i v
dispatch-TimersRun humantime (Event.ac_changed ac) e m i v = on_ac_changed-TimersRun ac e m i v
dispatch-TimersRun humantime (Event.ipc id request) e m i v =
    request-TimersRun humantime id request e m i v
dispatch-TimersRun humantime _ e m i v = grind effects

-- In an engine that keeps the invariant, the timer that ends the grace period, the awake window,
-- or the wait of a refused sleep runs after every event, if it did before.
pub handle-TimersRun :
    (humantime : Duration → String) (event : Event) (e : Engine) (m : Machine)
    → Inv e
    → TimersRun e m
    → TimersRun (handle humantime event e).0 (after humantime event e m)
unfolding handle
handle-TimersRun humantime event e m i v =
    subst (λ m'. TimersRun (dispatch humantime event e).0 m')
      (sym (after-dispatch humantime event e m)) (dispatch-TimersRun humantime event e m i v)
