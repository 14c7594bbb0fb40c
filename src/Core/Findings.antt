-- ===== src/Core/Findings.antt =====
-- Places where the code of src/core.rs does not do what docs/02-state-machine.md says.
use ampered.Prelude.{◌≡◌, ◌∙◌, true, false, String, arith, List}
use ampered.Config.Durations.{Duration}
use ampered.Ipc
use ampered.Core.Types.{Engine, Event, State, Phase, Inhibitor}
use ampered.Core.Events.{on_activity, on_ac_changed}
use ampered.Core.Handle.{handle, dispatch}
use ampered.Core.Code.{handler_code}
use ampered.Core.Machine.{Machine, after, after-dispatch, effects}

abbrev SameScreen : Machine → Machine → Type 0
SameScreen m n = (n.screen_on ≡ m.screen_on) × (n.dimmed ≡ m.dimmed)

back_in_grace :
    (humantime : Duration → String) (e : Engine) (m : Machine)
    → e.state ≡ State.long_sleep Phase.grace
    → e.power.ac ≡ false
    → ((handle humantime (Event.ac_changed true) e).0.state ≡ State.active)
      × SameScreen m (after humantime (Event.ac_changed true) e m)
unfolding on_ac_changed handle dispatch
back_in_grace humantime e m g a =
    rw (after-dispatch humantime (Event.ac_changed true) e m) (grind effects)

activity_in_active :
    (humantime : Duration → String) (e : Engine) (m : Machine)
    → e.state ≡ State.active
    → ((handle humantime Event.activity e).0.state ≡ State.active)
      × SameScreen m (after humantime Event.activity e m)
unfolding on_activity handle dispatch
activity_in_active humantime e m a = rw (after-dispatch humantime Event.activity e m) (ground arith)

-- When the power comes back in the grace period on battery, and the user then touches the machine,
-- the state is `Active`, but the screen and the brightness are as they were before: no command
-- restores them.
pub grace-dark :
    (humantime : Duration → String) (e : Engine) (m : Machine)
    → e.state ≡ State.long_sleep Phase.grace
    → e.power.ac ≡ false
    → let back = Event.ac_changed true in
      let e₁ = (handle humantime back e).0 in
      let m₁ = after humantime back e m in
      let m₂ = after humantime Event.activity e₁ m₁ in
      ((handle humantime Event.activity e₁).0.state ≡ State.active)
      × (m₂.screen_on ≡ m.screen_on)
      × (m₂.dimmed ≡ m.dimmed)
grace-dark humantime e m g a =
    let back : Event = Event.ac_changed true in
    let e₁ = (handle humantime back e).0 in
    let m₁ = after humantime back e m in
    let first = back_in_grace humantime e m g a in
    let second = activity_in_active humantime e₁ m₁ first.0 in
    (second.0, second.1.0 ∙ first.1.0, second.1.1 ∙ first.1.1)

-- A forced `amperedctl sleep` while a suspend is awaited makes `Suspending` the state to go back to:
-- when logind then refuses for its inhibitors, the engine is still in `Suspending`.
pub sleep_twice-stuck :
    (humantime : Duration → String) (e : Engine) (id : Ipc.RequestId) (blockers : List Inhibitor)
    → e.state ≡ State.suspending
    → let e₁ = (handle humantime (Event.ipc id (Ipc.Request.sleep true)) e).0 in
      (handle humantime (Event.sleep_blocked blockers) e₁).0.state ≡ State.suspending
unfolding handler_code handle
sleep_twice-stuck humantime e id blockers s = ground arith
