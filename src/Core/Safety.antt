-- ===== src/Core/Safety.antt =====
-- When the engine may put the machine to sleep or turn it off.
use ampered.Prelude.{
  ◌<◌, [], ◌∷◌, ◌++◌, count-append, ◌≡◌, ◌⊎◌, inl, inr, refl, not, Bool-cases, Bool, true, false,
  String, arith, count, List,
}
use ampered.Config.Durations.{Duration}
use ampered.Config.Sections.{CriticalAction}
use ampered.Ipc
use ampered.Ipc.{RequestId, Response}
use ampered.Core.Types.{Engine, Command, Event, State, Phase}
use ampered.Core.Sleep.{sleep_blockers, is_blocked, cancel_pending_sleep}
use ampered.Core.Cycle.{battery_critical, cancel_cycle}
use ampered.Core.Events.{in_cycle, on_activity, on_ac_changed}
use ampered.Core.Handle.{handle, dispatch}
use ampered.Core.Requests.{on_long_sleep, on_ipc}
use ampered.Core.Modes.{mode_changed, mode_commands}
use ampered.Core.Code.{dispatch_code}
use ampered.Core.Commands.{
  is_special, IsSpecial, count-zero, on_activity-routine, on_ac_changed-routine,
  cancel_cycle-routine, count-handle,
}

abbrev pub is_power_off : Command → Bool
is_power_off Command.power_off = true
is_power_off _ = false

abbrev pub is_suspend : Command → Bool
is_suspend (Command.suspend method force) = true
is_suspend _ = false

power_off-IsSpecial : IsSpecial is_power_off
power_off-IsSpecial c h = ground arith

suspend-IsSpecial : IsSpecial is_suspend
suspend-IsSpecial c h = ground arith

-- What must hold of the engine for `PowerOff` to be sent.
abbrev pub MayPowerOff : Engine → Type 0
MayPowerOff e =
    (in_cycle e.state ≡ true)
    × (e.power.ac ≡ false)
    × (battery_critical e ≡ true)
    × ((e.config.server.critical_action ≡ CriticalAction.poweroff)
        ⊎ (e.hibernate_available ≡ false))

abbrev is_forced : Event → Bool
is_forced (Event.ipc id (Ipc.Request.sleep force)) = force
is_forced _ = false

abbrev pub MaySuspend : Event → Engine → Type 0
MaySuspend event e =
    ((in_cycle e.state ≡ false)
      × ((is_forced event ≡ true) ⊎ (is_blocked (sleep_blockers e) ≡ false)))
    ⊎ (((event ≡ Event.wake_scheduled true)
          × (e.state ≡ State.long_sleep Phase.armed)
          × (e.power.ac ≡ false)
          × (is_blocked (sleep_blockers e) ≡ false))
        ⊎ ((in_cycle e.state ≡ true) × (e.power.ac ≡ false) × (battery_critical e ≡ true)))

-- The acting commands among the special ones: all but answers.
abbrev is_acting : Command → Bool
is_acting (Command.dim percent) = true
is_acting (Command.suspend method force) = true
is_acting Command.power_off = true
is_acting Command.shutdown = true
is_acting _ = false

acting-IsSpecial : IsSpecial is_acting
acting-IsSpecial c h = ground arith

abbrev IsActing : (Command → Bool) → Type 0
IsActing p = (c : Command) → is_acting c ≡ false → p c ≡ false

count-acting :
    (p : Command → Bool) (s : IsActing p) (cs : List Command)
    → count is_acting cs ≡ 0
    → count p cs ≡ 0
count-acting p s [] h = refl
count-acting p s (c ∷ cs) h = ground (arith, s c, count-acting p s cs)

behind_routine-acting :
    (cs : List Command) (id : RequestId) (r : Response)
    → count is_special cs ≡ 0
    → count is_acting (cs ++ Command.reply id r ∷ []) ≡ 0
behind_routine-acting cs id r h = omega (
  arith,
  count-append is_acting cs (Command.reply id r ∷ []),
  count-zero is_acting cs acting-IsSpecial h,
)

abbrev may_act : Ipc.Request → Bool
may_act (Ipc.Request.sleep force) = true
may_act Ipc.Request.dim = true
may_act _ = false

long_sleep-acting :
    (id : RequestId) (cancel : Bool) (e : Engine) (state : State)
    → e.state ≡ state
    → count is_acting (on_long_sleep id cancel e).1 ≡ 0
unfolding on_long_sleep cancel_pending_sleep
long_sleep-acting id cancel e (State.long_sleep phase) h = ground (
  arith,
  behind_routine-acting (cancel_cycle phase e).1 id Response.ok (cancel_cycle-routine phase e),
)
long_sleep-acting id cancel e _ h = ground arith

request-acting :
    (humantime : Duration → String) (e : Engine) (id : RequestId) (request : Ipc.Request)
    → may_act request ≡ false
    → count is_acting (dispatch humantime (Event.ipc id request) e).1 ≡ 0
unfolding dispatch on_ipc mode_changed mode_commands
request-acting humantime e id Ipc.Request.undim h =
    behind_routine-acting (on_activity e).1 id Response.ok (on_activity-routine e)
request-acting humantime e id (Ipc.Request.screen Ipc.ScreenState.on) h =
    behind_routine-acting (on_activity e).1 id Response.ok (on_activity-routine e)
request-acting humantime e id (Ipc.Request.long_sleep cancel) h =
    long_sleep-acting id cancel e e.state refl
request-acting humantime e id (Ipc.Request.screen Ipc.ScreenState.off) h = ground arith
request-acting humantime e id _ h = ground arith

-- Events whose handlers send no acting command.
abbrev is_calm : Event → Bool
is_calm Event.activity = true
is_calm (Event.ac_changed ac) = true
is_calm (Event.ipc id request) = not (may_act request)
is_calm _ = false

calm-acting :
    (humantime : Duration → String) (e : Engine) (event : Event)
    → is_calm event ≡ true
    → count is_acting (dispatch humantime event e).1 ≡ 0
unfolding dispatch
calm-acting humantime e Event.activity h =
    count-zero is_acting (on_activity e).1 acting-IsSpecial (on_activity-routine e)
calm-acting humantime e (Event.ac_changed ac) h =
    count-zero is_acting (on_ac_changed ac e).1 acting-IsSpecial (on_ac_changed-routine ac e)
calm-acting humantime e (Event.ipc id request) h =
    request-acting humantime e id request (ground arith)
calm-acting humantime e _ h = cc

-- So what they are given does not matter for a test of acting commands.
calm_absurd :
    (humantime : Duration → String) (p : Command → Bool) (s : IsActing p) (event : Event)
    (e : Engine)
    → is_calm event ≡ true
    → 0 < count p (dispatch humantime event e).1
    → ⊥
calm_absurd humantime p s event e c h =
    omega (arith, count-acting p s (dispatch humantime event e).1 (calm-acting humantime e event c))

power_off-IsActing : IsActing is_power_off
power_off-IsActing c h = ground arith

suspend-IsActing : IsActing is_suspend
suspend-IsActing c h = ground arith

dispatch-power_off :
    (humantime : Duration → String) (event : Event) (e : Engine)
    → is_calm event ≡ false
    → 0 < count is_power_off (dispatch humantime event e).1
    → MayPowerOff e
unfolding dispatch_code in_cycle battery_critical
dispatch-power_off humantime (Event.ipc id Ipc.Request.dim) e c h = ground arith
dispatch-power_off humantime (Event.ipc id (Ipc.Request.sleep force)) e c h = ground arith
dispatch-power_off humantime (Event.ipc id _) e c h = cc
dispatch-power_off humantime Event.activity e c h = cc
dispatch-power_off humantime (Event.ac_changed ac) e c h = cc
dispatch-power_off humantime _ e c h = ground arith

-- `PowerOff` is sent only inside the server cycle, on battery, at a critical charge, and only if
-- the configured action is to power off or hibernation is not available.
pub handle-power_off :
    (humantime : Duration → String) (event : Event) (e : Engine)
    → 0 < count is_power_off (handle humantime event e).1
    → MayPowerOff e
handle-power_off humantime event e h = elim (Bool-cases (is_calm event)) [
  | inl calm ↦ absurd (
      calm_absurd humantime is_power_off power_off-IsActing event e calm
        (rw (count-handle humantime is_power_off event e power_off-IsSpecial) at h))
  | inr other ↦
      dispatch-power_off humantime event e other
        (rw (count-handle humantime is_power_off event e power_off-IsSpecial) at h)
]

dispatch-suspend :
    (humantime : Duration → String) (event : Event) (e : Engine)
    → (e.pending_sleep ≡ true → in_cycle e.state ≡ false)
    → is_calm event ≡ false
    → 0 < count is_suspend (dispatch humantime event e).1
    → MaySuspend event e
unfolding dispatch_code in_cycle battery_critical sleep_blockers
dispatch-suspend humantime (Event.ipc id Ipc.Request.dim) e v c h = ground arith
dispatch-suspend humantime (Event.ipc id (Ipc.Request.sleep force)) e v c h = ground arith
dispatch-suspend humantime (Event.ipc id _) e v c h = cc
dispatch-suspend humantime Event.activity e v c h = cc
dispatch-suspend humantime (Event.ac_changed ac) e v c h = cc
dispatch-suspend humantime _ e v c h = ground arith

-- In an engine whose pending retry stands outside the server cycle, `Suspend` is sent only in three
-- situations: outside the cycle with no blocking inhibitor, or by a forced request; in the cycle
-- as the answer to an alarm that was armed, on battery and with no blocker; and in the cycle, on
-- battery, at a critical charge.
pub handle-suspend :
    (humantime : Duration → String) (event : Event) (e : Engine)
    → (e.pending_sleep ≡ true → in_cycle e.state ≡ false)
    → 0 < count is_suspend (handle humantime event e).1
    → MaySuspend event e
handle-suspend humantime event e v h = elim (Bool-cases (is_calm event)) [
  | inl calm ↦ absurd (
      calm_absurd humantime is_suspend suspend-IsActing event e calm
        (rw (count-handle humantime is_suspend event e suspend-IsSpecial) at h))
  | inr other ↦
      dispatch-suspend humantime event e v other
        (rw (count-handle humantime is_suspend event e suspend-IsSpecial) at h)
]
