-- ===== src/Core/Screen.antt =====
-- The screen and the brightness follow the state.
use ampered.Prelude.{◌≡◌, Bool, true, false, not, ◌&&◌, String, List, [], ◌∷◌, ◌++◌, subst, sym}
use ampered.Config.Durations.{Duration}
use ampered.Ipc
use ampered.Ipc.{Response}
use ampered.Core.Types.{Engine, Event, State, Command, Phase}
use ampered.Core.Sleep.{cancel_pending_sleep}
use ampered.Core.Events.{on_activity, on_ac_changed, in_cycle}
use ampered.Core.Requests.{on_ipc}
use ampered.Core.Handle.{handle, dispatch}
use ampered.Core.Code.{handler_code}
use ampered.Core.Invariant.{Inv}
use ampered.Core.Machine.{Machine, perform, fire, after, after-dispatch, reply-inert, effects}

-- What the user sees in a state.
abbrev Shows : State → Machine → Type 0
Shows State.active m = (m.screen_on ≡ true) × (m.dimmed ≡ false)
Shows State.dimmed m = (m.screen_on ≡ true) × (m.dimmed ≡ true)
Shows State.screen_off m = m.screen_on ≡ false
Shows _ m = Unit {0}

-- While a suspend is awaited, the screen is as the state left it from which it was asked for.
abbrev ShownIn : State → State → Machine → Type 0
ShownIn State.suspending from m = Shows from m
ShownIn state from m = Shows state m

abbrev pub ScreenShows : Engine → Machine → Type 0
ScreenShows e m = ShownIn e.state e.suspend_from m

abbrev is_grace : State → Bool
is_grace (State.long_sleep Phase.grace) = true
is_grace _ = false

-- The power comes back in the grace period.
abbrev pub power_back_in_grace : Event → Engine → Bool
power_back_in_grace (Event.ac_changed true) e = is_grace e.state && not e.power.ac
power_back_in_grace _ e = false

on_activity-ScreenShows :
    (e : Engine) (m : Machine)
    → Inv e
    → ScreenShows e m
    → ScreenShows (on_activity e).0 (perform (on_activity e).1 m)
unfolding on_activity in_cycle
on_activity-ScreenShows e m i v = grind effects

on_ac_changed-ScreenShows :
    (ac : Bool) (e : Engine) (m : Machine)
    → Inv e
    → power_back_in_grace (Event.ac_changed ac) e ≡ false
    → ScreenShows e m
    → ScreenShows (on_ac_changed ac e).0 (perform (on_ac_changed ac e).1 m)
unfolding on_ac_changed cancel_pending_sleep in_cycle
on_ac_changed-ScreenShows ac e m i q v = grind effects

-- An answer behind an outcome changes nothing here.
with_reply :
    (e' : Engine) (cs : List Command) (id : Ipc.RequestId) (r : Response) (m : Machine)
    → ScreenShows e' (perform cs m)
    → ScreenShows e' (perform (cs ++ Command.reply id r ∷ []) m)
with_reply e' cs id r m = subst (λ m'. ScreenShows e' m') (sym (reply-inert cs id r m))

request-ScreenShows :
    (humantime : Duration → String) (id : Ipc.RequestId) (request : Ipc.Request) (e : Engine)
    (m : Machine)
    → Inv e
    → ScreenShows e m
    → ScreenShows (on_ipc humantime id request e).0 (perform (on_ipc humantime id request e).1 m)
unfolding handler_code in_cycle
request-ScreenShows humantime id Ipc.Request.undim e m i v =
    with_reply (on_activity e).0 (on_activity e).1 id Response.ok m
      (on_activity-ScreenShows e m i v)
request-ScreenShows humantime id (Ipc.Request.screen Ipc.ScreenState.on) e m i v =
    with_reply (on_activity e).0 (on_activity e).1 id Response.ok m
      (on_activity-ScreenShows e m i v)
request-ScreenShows humantime id (Ipc.Request.screen Ipc.ScreenState.off) e m i v = grind effects
request-ScreenShows humantime id _ e m i v = grind effects

dispatch-ScreenShows :
    (humantime : Duration → String) (event : Event) (e : Engine) (m : Machine)
    → Inv e
    → power_back_in_grace event e ≡ false
    → ScreenShows e m
    → ScreenShows
        (dispatch humantime event e).0
        (perform (dispatch humantime event e).1 (fire event m))
unfolding handler_code in_cycle
dispatch-ScreenShows humantime Event.activity e m i q v = on_activity-ScreenShows e m i v
dispatch-ScreenShows humantime (Event.ac_changed ac) e m i q v =
    on_ac_changed-ScreenShows ac e m i q v
dispatch-ScreenShows humantime (Event.ipc id request) e m i q v =
    request-ScreenShows humantime id request e m i v
dispatch-ScreenShows humantime _ e m i q v = grind effects

-- In an engine that keeps the invariant, every event but the return of power in the grace period
-- keeps the screen and the brightness in step with the state: lit and undimmed in `Active`, lit
-- and dimmed in `Dimmed`, dark in `ScreenOff`, and as they were before the suspend was asked for
-- in `Suspending`.
pub handle-ScreenShows :
    (humantime : Duration → String) (event : Event) (e : Engine) (m : Machine)
    → Inv e
    → power_back_in_grace event e ≡ false
    → ScreenShows e m
    → ScreenShows (handle humantime event e).0 (after humantime event e m)
unfolding handle
handle-ScreenShows humantime event e m i q v =
    subst (λ m'. ScreenShows (dispatch humantime event e).0 m')
      (sym (after-dispatch humantime event e m)) (dispatch-ScreenShows humantime event e m i q v)
