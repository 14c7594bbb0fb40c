-- ===== src/Core/Invariant.antt =====
-- What holds of the engine between two events, and how it evolves over a daemon's life.
use ampered.Prelude.{◌<◌, ◌≤◌, ◌≡◌, Bool, true, false, String, arith}
use ampered.Config.Durations.{Duration}
use ampered.Ipc
use ampered.Core.Types.{Engine, Event, State, max_sleep_failures}
use ampered.Core.Cycle.{leave_cycle}
use ampered.Core.Events.{in_cycle, on_ac_changed}
use ampered.Core.Frames.{select_auto_mode-frame, reapply_auto_mode-frame}
use ampered.Core.Sleep.{cancel_pending_sleep}
use ampered.Core.Handle.{handle, dispatch}
use ampered.Core.Code.{dispatch_code}

pub record Inv (e : Engine) : Type 0 where
  pub few_failures : e.sleep_failures ≤ max_sleep_failures
  pub cycle_lives : in_cycle e.state ≡ true → e.sleep_failures < max_sleep_failures
  pub retry_outside : e.pending_sleep ≡ true → in_cycle e.state ≡ false
  pub origin_outside : in_cycle e.suspend_from ≡ false

on_ac_changed-Inv : (ac : Bool) (e : Engine) → Inv e → Inv (on_ac_changed ac e).0
unfolding on_ac_changed in_cycle cancel_pending_sleep leave_cycle
on_ac_changed-Inv ac e v =
    let e' : Engine = record e { power = record e.power { ac = ac } } in
    ground (
      arith,
      reapply_auto_mode-frame e',
      reapply_auto_mode-frame (record e' { state = State.active }),
      select_auto_mode-frame (record e' { state = State.active }),
    )

dispatch-Inv :
    (humantime : Duration → String) (event : Event) (e : Engine)
    → Inv e
    → Inv (dispatch humantime event e).0
unfolding dispatch_code in_cycle
dispatch-Inv humantime (Event.ac_changed ac) e v = on_ac_changed-Inv ac e v
dispatch-Inv humantime (Event.ipc id Ipc.Request.status) e v = ground arith
dispatch-Inv humantime (Event.ipc id _) e v = ground arith
dispatch-Inv humantime _ e v = ground arith

-- Every event keeps the invariant: never more than three failed attempts, fewer than three in the
-- server cycle, no pending retry of a sleep in the cycle, and no cycle state to go back to from a
-- suspend.
pub handle-Inv :
    (humantime : Duration → String) (event : Event) (e : Engine)
    → Inv e
    → Inv (handle humantime event e).0
unfolding handle
handle-Inv humantime event e v = dispatch-Inv humantime event e v
