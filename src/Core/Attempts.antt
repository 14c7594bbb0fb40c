-- ===== src/Core/Attempts.antt =====
-- An attempt of the cycle that is over is followed by the awake window (src/core.rs).
use ampered.Prelude.{
  ◌≡◌, refl, arith, Bool, true, false, ◌||◌, String, List, [], ◌∷◌, ◌++◌, subst, sym, ◌∙◌,
}
use ampered.Config.Durations.{Duration}
use ampered.Core.Types.{Engine, Event, State, Command}
use ampered.Core.Modes.{reapply_auto_mode, mode_changed, select_auto_mode, mode_commands}
use ampered.Core.Cycle.{is_armed}
use ampered.Core.Events.{in_cycle}
use ampered.Core.Handle.{handle, dispatch, announce}
use ampered.Core.Code.{handler_code}
use ampered.Core.Invariant.{Inv}
use ampered.Core.Deadlines.{TimersRun, handle-TimersRun}
use ampered.Core.Machine.{Machine, perform, fire, after, after-dispatch, effects}

-- Whether an attempt is under way: a wake or a suspend was commanded, and nothing has come of it yet.
abbrev pub attempting : List Command → Bool → Bool
attempting [] a = a
attempting (Command.schedule_wake duration ∷ rest) a = attempting rest true
attempting (Command.suspend method force ∷ rest) a = attempting rest true
attempting (_ ∷ rest) a = attempting rest a

-- What an event says of an attempt: the wake was armed or not, or the sleep was blocked, failed or begins.
abbrev pub outcome : Event → Bool → Bool
outcome (Event.wake_scheduled armed) a = false
outcome (Event.sleep_blocked list) a = false
outcome Event.sleep_failed a = false
outcome Event.suspending a = false
outcome _ a = a

-- An armed cycle waits for an attempt or for the awake window.
abbrev pub Waits : Engine → Machine → Bool → Type 0
Waits e m a = is_armed e.state ≡ true → (m.window_timer || a) ≡ true

attempting-append :
    (cs ds : List Command) (a : Bool) → attempting (cs ++ ds) a ≡ attempting ds (attempting cs a)
attempting-append [] ds a = refl
attempting-append (Command.schedule_wake duration ∷ cs) ds a = attempting-append cs ds true
attempting-append (Command.suspend method force ∷ cs) ds a = attempting-append cs ds true
attempting-append (_ ∷ cs) ds a = attempting-append cs ds a

announce-attempting : (from : State) (e : Engine) (a : Bool) → attempting (announce from e) a ≡ a
unfolding announce
announce-attempting from e a = ground arith

reapply-attempting : (e : Engine) (a : Bool) → attempting (reapply_auto_mode e).1 a ≡ a
unfolding reapply_auto_mode select_auto_mode mode_changed mode_commands
reapply-attempting e a = ground arith

mode_changed-attempting : (e : Engine) (a : Bool) → attempting (mode_changed e) a ≡ a
unfolding mode_changed mode_commands
mode_changed-attempting e a = ground arith

ruleset attempts = (effects, attempting-append, reapply-attempting, mode_changed-attempting)

dispatch-Waits :
    (humantime : Duration → String) (event : Event) (e : Engine) (m : Machine) (a : Bool)
    → Inv e
    → Waits e m a
    → Waits
        (dispatch humantime event e).0
        (perform (dispatch humantime event e).1 (fire event m))
        (attempting (dispatch humantime event e).1 (outcome event a))
unfolding handler_code in_cycle is_armed
dispatch-Waits humantime Event.activity e m a i w = grind attempts
dispatch-Waits humantime (Event.ac_changed ac) e m a i w = grind attempts
dispatch-Waits humantime (Event.ipc id request) e m a i w = grind attempts
dispatch-Waits humantime _ e m a i w = grind attempts

-- In an engine that keeps the invariant, after every event: the timer that ends the grace period, the awake
-- window or the wait of a refused sleep runs, and an armed cycle has the timer of the awake window or an
-- attempt under way, that is a wake or a suspend which was commanded and of which no outcome has come; if
-- all that was so before. So the engine is never left in the grace period, in a check or armed after a
-- failed attempt with nothing that ends it.
pub handle-HasDeadline :
    (humantime : Duration → String) (event : Event) (e : Engine) (m : Machine) (a : Bool)
    → Inv e
    → TimersRun e m
    → Waits e m a
    → let (e', commands) = handle humantime event e in
      let m' = after humantime event e m in
      TimersRun e' m' × Waits e' m' (attempting commands (outcome event a))
unfolding handle
handle-HasDeadline humantime event e m a i v w =
    let (e', commands) = dispatch humantime event e in
    let same =
      attempting-append commands (announce e.state e') (outcome event a)
      ∙ announce-attempting e.state e' (attempting commands (outcome event a)) in
    let waits =
      subst (λ m'. Waits e' m' (attempting commands (outcome event a)))
        (sym (after-dispatch humantime event e m)) (dispatch-Waits humantime event e m a i w) in
    (
      handle-TimersRun humantime event e m i v,
      subst (λ a'. Waits e' (after humantime event e m) a') (sym same) waits,
    )
