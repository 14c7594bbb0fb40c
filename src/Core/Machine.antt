-- ===== src/Core/Machine.antt =====
-- The machine as the engine's commands leave it: the screen, the brightness, the wake alarm, the
-- timers and the idle stages of the compositor. src/main.rs (`Daemon::execute`) carries the
-- commands out; here each is assumed to succeed.
use ampered.Prelude.{
  ◌≡◌, refl, Bool, true, false, List, [], ◌∷◌, ◌++◌, arith, String, ◌∙◌, if◌then◌else◌,
}
use ampered.Config.Durations.{Duration}
use ampered.Ipc.{RequestId, Response}
use ampered.Core.Frames.{reapply_auto_mode-frame, leave_cycle-frame}
use ampered.Core.Types.{Engine, State, Command, Event, TimerId, Stages, no_stages}
use ampered.Core.Modes.{
  stages, is_past_grace, mode_commands, mode_changed, select_auto_mode, reapply_auto_mode,
}
use ampered.Core.Cycle.{leave_cycle}
use ampered.Core.Handle.{announce, dispatch, handle}

pub record Machine : Type 0 where
  pub screen_on : Bool
  pub dimmed : Bool
  pub alarm : Bool
  pub grace_timer : Bool
  pub window_timer : Bool
  pub retry_timer : Bool
  pub stages : Stages

abbrev pub set_timer : TimerId → Bool → Machine → Machine
set_timer TimerId.grace on m = record m { grace_timer = on }
set_timer TimerId.awake_window on m = record m { window_timer = on }
set_timer TimerId.sleep_retry on m = record m { retry_timer = on }
set_timer (TimerId.inhibit_expiry id) on m = m

abbrev pub execute : Command → Machine → Machine
execute (Command.dim percent) m = record m { dimmed = true }
execute Command.undim m = record m { dimmed = false }
execute (Command.screen on) m = record m { screen_on = on }
execute (Command.replace_idle_stages stages) m = record m { stages = stages }
execute (Command.schedule_wake after) m = record m { alarm = true }
execute Command.cancel_wake m = record m { alarm = false }
execute (Command.start_timer id after) m = set_timer id true m
execute (Command.cancel_timer id) m = set_timer id false m
execute _ m = m

abbrev pub perform : List Command → Machine → Machine
perform [] m = m
perform (c ∷ cs) m = perform cs (execute c m)

-- A timer that fires is no longer running.
abbrev pub fire : Event → Machine → Machine
fire (Event.timer id) m = set_timer id false m
fire _ m = m

pub perform-append :
    (cs ds : List Command) (m : Machine) → perform (cs ++ ds) m ≡ perform ds (perform cs m)
perform-append [] ds m = refl
perform-append (c ∷ cs) ds m = perform-append cs ds (execute c m)

-- The stages that the compositor should have.
unfoldable pub wanted_stages : Engine → Stages
wanted_stages e = if is_past_grace e.state then no_stages else stages e

pub announce-inert : (from : State) (e : Engine) (m : Machine) → perform (announce from e) m ≡ m
unfolding announce
announce-inert from e m = ground arith

pub mode_commands-perform :
    (e : Engine) (m : Machine) → perform (mode_commands e) m ≡ record m { stages = wanted_stages e }
unfolding mode_commands wanted_stages
mode_commands-perform e m = ground arith

pub leave_cycle-perform :
    (e : Engine) (m : Machine)
    → perform (leave_cycle e).1 m ≡ record m {
      screen_on = true;
      dimmed = false;
      alarm = false;
      stages = wanted_stages (leave_cycle e).0;
    }
unfolding leave_cycle select_auto_mode mode_commands wanted_stages
leave_cycle-perform e m = ground arith

pub mode_changed-perform :
    (e : Engine) (m : Machine) → perform (mode_changed e) m ≡ record m { stages = wanted_stages e }
unfolding mode_changed mode_commands wanted_stages
mode_changed-perform e m = ground arith

-- The choice of a mode changes the stages alone, and leaves them right if they were.
pub reapply_auto_mode-perform :
    (e : Engine) (m : Machine)
    → perform (reapply_auto_mode e).1 m
      ≡ record m { stages = (perform (reapply_auto_mode e).1 m).stages }
unfolding reapply_auto_mode select_auto_mode mode_changed mode_commands
reapply_auto_mode-perform e m = ground arith

pub reapply_auto_mode-stages :
    (e : Engine) (m : Machine)
    → m.stages ≡ wanted_stages e
    → (perform (reapply_auto_mode e).1 m).stages ≡ wanted_stages (reapply_auto_mode e).0
unfolding reapply_auto_mode select_auto_mode mode_changed mode_commands wanted_stages stages
reapply_auto_mode-stages e m h = ground arith

-- The machine after an event.
abbrev pub after : (Duration → String) → Event → Engine → Machine → Machine
after humantime event e m = perform (handle humantime event e).1 (fire event m)

-- What `handle` announces does not touch the machine.
pub after-dispatch :
    (humantime : Duration → String) (event : Event) (e : Engine) (m : Machine)
    → after humantime event e m ≡ perform (dispatch humantime event e).1 (fire event m)
unfolding handle
after-dispatch humantime event e m =
    let (e', commands) = dispatch humantime event e in
    perform-append commands (announce e.state e') (fire event m)
    ∙ announce-inert e.state e' (perform commands (fire event m))

-- An answer behind an outcome does not touch the machine.
pub reply-inert :
    (cs : List Command) (id : RequestId) (r : Response) (m : Machine)
    → perform (cs ++ Command.reply id r ∷ []) m ≡ perform cs m
reply-inert cs id r m = perform-append cs (Command.reply id r ∷ []) m

-- How the shut parts of the engine act on the machine.
pub ruleset effects = (
  arith, leave_cycle-perform, leave_cycle-frame, reapply_auto_mode-perform, reapply_auto_mode-frame,
  mode_changed-perform, perform-append,
)
