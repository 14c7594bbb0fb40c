-- ===== src/Core/IdleStages.antt =====
-- The idle stages of the compositor follow the mode.
use ampered.Prelude.{◌≡◌, Bool, true, false, String, List, [], ◌∷◌, ◌++◌, subst, sym}
use ampered.Config.Durations.{Duration}
use ampered.Ipc
use ampered.Ipc.{Response}
use ampered.Core.Types.{Engine, Event, Command}
use ampered.Core.Modes.{is_past_grace, stages}
use ampered.Core.Sleep.{cancel_pending_sleep}
use ampered.Core.Events.{on_activity, on_ac_changed, in_cycle}
use ampered.Core.Requests.{on_ipc}
use ampered.Core.Handle.{handle, dispatch}
use ampered.Core.Code.{handler_code}
use ampered.Core.Invariant.{Inv}
use ampered.Core.Machine.{
  Machine, perform, fire, after, after-dispatch, reply-inert, effects, wanted_stages,
  reapply_auto_mode-stages,
}

-- Outside the cycle and in its grace period the compositor has the stages of the current mode.
abbrev pub StagesLive : Engine → Machine → Type 0
StagesLive e m = is_past_grace e.state ≡ false → m.stages ≡ stages e

abbrev pub is_shutdown : Event → Bool
is_shutdown Event.shutdown_requested = true
is_shutdown _ = false

on_activity-StagesLive :
    (e : Engine) (m : Machine)
    → Inv e
    → StagesLive e m
    → StagesLive (on_activity e).0 (perform (on_activity e).1 m)
unfolding on_activity is_past_grace in_cycle wanted_stages stages
on_activity-StagesLive e m i v = grind effects

on_ac_changed-StagesLive :
    (ac : Bool) (e : Engine) (m : Machine)
    → Inv e
    → StagesLive e m
    → StagesLive (on_ac_changed ac e).0 (perform (on_ac_changed ac e).1 m)
unfolding on_ac_changed cancel_pending_sleep is_past_grace in_cycle wanted_stages stages
on_ac_changed-StagesLive ac e m i v = grind (effects, reapply_auto_mode-stages)

-- An answer behind an outcome changes nothing here.
with_reply :
    (e' : Engine) (cs : List Command) (id : Ipc.RequestId) (r : Response) (m : Machine)
    → StagesLive e' (perform cs m)
    → StagesLive e' (perform (cs ++ Command.reply id r ∷ []) m)
with_reply e' cs id r m = subst (λ m'. StagesLive e' m') (sym (reply-inert cs id r m))

request-StagesLive :
    (humantime : Duration → String) (id : Ipc.RequestId) (request : Ipc.Request) (e : Engine)
    (m : Machine)
    → Inv e
    → StagesLive e m
    → StagesLive (on_ipc humantime id request e).0 (perform (on_ipc humantime id request e).1 m)
unfolding handler_code is_past_grace in_cycle wanted_stages stages
request-StagesLive humantime id Ipc.Request.undim e m i v =
    with_reply (on_activity e).0 (on_activity e).1 id Response.ok m (on_activity-StagesLive e m i v)
request-StagesLive humantime id (Ipc.Request.screen Ipc.ScreenState.on) e m i v =
    with_reply (on_activity e).0 (on_activity e).1 id Response.ok m (on_activity-StagesLive e m i v)
request-StagesLive humantime id (Ipc.Request.screen Ipc.ScreenState.off) e m i v = grind effects
request-StagesLive humantime id _ e m i v = grind effects

dispatch-StagesLive :
    (humantime : Duration → String) (event : Event) (e : Engine) (m : Machine)
    → Inv e
    → is_shutdown event ≡ false
    → StagesLive e m
    → StagesLive
        (dispatch humantime event e).0
        (perform (dispatch humantime event e).1 (fire event m))
unfolding handler_code is_past_grace in_cycle wanted_stages stages
dispatch-StagesLive humantime Event.activity e m i q v = on_activity-StagesLive e m i v
dispatch-StagesLive humantime (Event.ac_changed ac) e m i q v = on_ac_changed-StagesLive ac e m i v
dispatch-StagesLive humantime (Event.ipc id request) e m i q v =
    request-StagesLive humantime id request e m i v
dispatch-StagesLive humantime (Event.battery percent) e m i q v =
    grind (effects, reapply_auto_mode-stages)
dispatch-StagesLive humantime _ e m i q v = grind effects

-- In an engine that keeps the invariant, every event but a shutdown keeps the stages of the
-- compositor those of the current mode, as long as the engine is outside the cycle or in its grace
-- period; leaving the cycle brings them back.
pub handle-StagesLive :
    (humantime : Duration → String) (event : Event) (e : Engine) (m : Machine)
    → Inv e
    → is_shutdown event ≡ false
    → StagesLive e m
    → StagesLive (handle humantime event e).0 (after humantime event e m)
unfolding handle
handle-StagesLive humantime event e m i q v =
    subst (λ m'. StagesLive (dispatch humantime event e).0 m')
      (sym (after-dispatch humantime event e m)) (dispatch-StagesLive humantime event e m i q v)
