-- ===== src/Core/Alarm.antt =====
-- The wake alarm belongs to the cycle past its grace period.
use ampered.Prelude.{◌≡◌, Bool, true, String, List, [], ◌∷◌, ◌++◌, subst, sym}
use ampered.Config.Durations.{Duration}
use ampered.Ipc
use ampered.Ipc.{Response}
use ampered.Core.Types.{Engine, Event, Command}
use ampered.Core.Modes.{is_past_grace}
use ampered.Core.Sleep.{cancel_pending_sleep}
use ampered.Core.Events.{on_activity, on_ac_changed, in_cycle}
use ampered.Core.Requests.{on_ipc}
use ampered.Core.Handle.{handle, dispatch}
use ampered.Core.Code.{handler_code}
use ampered.Core.Invariant.{Inv}
use ampered.Core.Machine.{Machine, perform, fire, after, after-dispatch, reply-inert, effects}

-- An alarm is armed only past the grace period of the cycle.
abbrev pub AlarmInCycle : Engine → Machine → Type 0
AlarmInCycle e m = m.alarm ≡ true → is_past_grace e.state ≡ true

on_activity-AlarmInCycle :
    (e : Engine) (m : Machine)
    → Inv e
    → AlarmInCycle e m
    → AlarmInCycle (on_activity e).0 (perform (on_activity e).1 m)
unfolding on_activity is_past_grace in_cycle
on_activity-AlarmInCycle e m i v = grind effects

on_ac_changed-AlarmInCycle :
    (ac : Bool) (e : Engine) (m : Machine)
    → Inv e
    → AlarmInCycle e m
    → AlarmInCycle (on_ac_changed ac e).0 (perform (on_ac_changed ac e).1 m)
unfolding on_ac_changed cancel_pending_sleep is_past_grace in_cycle
on_ac_changed-AlarmInCycle ac e m i v = grind effects

-- An answer behind an outcome changes nothing here.
with_reply :
    (e' : Engine) (cs : List Command) (id : Ipc.RequestId) (r : Response) (m : Machine)
    → AlarmInCycle e' (perform cs m)
    → AlarmInCycle e' (perform (cs ++ Command.reply id r ∷ []) m)
with_reply e' cs id r m = subst (λ m'. AlarmInCycle e' m') (sym (reply-inert cs id r m))

request-AlarmInCycle :
    (humantime : Duration → String) (id : Ipc.RequestId) (request : Ipc.Request) (e : Engine)
    (m : Machine)
    → Inv e
    → AlarmInCycle e m
    → AlarmInCycle (on_ipc humantime id request e).0 (perform (on_ipc humantime id request e).1 m)
unfolding handler_code is_past_grace in_cycle
request-AlarmInCycle humantime id Ipc.Request.undim e m i v =
    with_reply (on_activity e).0 (on_activity e).1 id Response.ok m
      (on_activity-AlarmInCycle e m i v)
request-AlarmInCycle humantime id (Ipc.Request.screen Ipc.ScreenState.on) e m i v =
    with_reply (on_activity e).0 (on_activity e).1 id Response.ok m
      (on_activity-AlarmInCycle e m i v)
request-AlarmInCycle humantime id (Ipc.Request.screen Ipc.ScreenState.off) e m i v = grind effects
request-AlarmInCycle humantime id _ e m i v = grind effects

dispatch-AlarmInCycle :
    (humantime : Duration → String) (event : Event) (e : Engine) (m : Machine)
    → Inv e
    → AlarmInCycle e m
    → AlarmInCycle
        (dispatch humantime event e).0
        (perform (dispatch humantime event e).1 (fire event m))
unfolding handler_code is_past_grace in_cycle
dispatch-AlarmInCycle humantime Event.activity e m i v = on_activity-AlarmInCycle e m i v
dispatch-AlarmInCycle humantime (Event.ac_changed ac) e m i v =
    on_ac_changed-AlarmInCycle ac e m i v
dispatch-AlarmInCycle humantime (Event.ipc id request) e m i v =
    request-AlarmInCycle humantime id request e m i v
dispatch-AlarmInCycle humantime _ e m i v = grind effects

-- In an engine that keeps the invariant: if the alarm is armed only past the grace period of the
-- cycle, so it is after every event. The engine arms it nowhere else, and every way out of the
-- cycle cancels it.
pub handle-AlarmInCycle :
    (humantime : Duration → String) (event : Event) (e : Engine) (m : Machine)
    → Inv e
    → AlarmInCycle e m
    → AlarmInCycle (handle humantime event e).0 (after humantime event e m)
unfolding handle
handle-AlarmInCycle humantime event e m i v =
    subst (λ m'. AlarmInCycle (dispatch humantime event e).0 m')
      (sym (after-dispatch humantime event e m)) (dispatch-AlarmInCycle humantime event e m i v)
