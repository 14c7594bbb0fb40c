-- ===== src/Core/Code.antt =====
-- The engine's code as names for `unfolding` lines.
use ampered.Core.Modes.{
  select_auto_mode, mode_commands, mode_changed, reapply_auto_mode, on_battery,
}
use ampered.Core.Sleep.{arm_sleep_retry, cancel_pending_sleep, request_sleep}
use ampered.Core.Cycle.{
  leave_cycle, power_is_back, cycle_failure, check_power, enter_grace, arm, on_wake_scheduled,
  cancel_cycle,
}
use ampered.Core.Events.{
  on_idle, on_activity, on_sleep_blocked, on_sleep_failed, on_suspending, on_resumed, on_timer,
  on_ac_changed,
}
use ampered.Core.Requests.{on_ipc}
use ampered.Core.Handle.{dispatch}

-- `dispatch` and the handlers. The choice of a mode stays shut, and so do the texts, the stages of
-- a mode and the list of blockers.
unfoldable pub handler_code : Unit {0}
unfolding on_battery arm_sleep_retry cancel_pending_sleep request_sleep power_is_back cycle_failure
    check_power enter_grace arm on_wake_scheduled cancel_cycle on_idle on_activity on_sleep_blocked
    on_sleep_failed on_suspending on_resumed on_timer on_ac_changed on_ipc dispatch
handler_code = tt

-- The same with the choice of a mode.
unfoldable pub dispatch_code : Unit {0}
unfolding handler_code select_auto_mode mode_commands mode_changed reapply_auto_mode leave_cycle
dispatch_code = tt
