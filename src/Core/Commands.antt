-- ===== src/Core/Commands.antt =====
-- The commands that an outcome holds, counted by a test. What the engine announces and the common
-- parts of its handlers emit no special command, whatever the state.
use ampered.Prelude.{
  ◌≡◌, refl, Bool, true, false, List, [], ◌∷◌, String, arith, count, count-append,
}
use ampered.Config.Durations.{Duration}
use ampered.Core.Types.{Engine, Command, Event, State, Phase}
use ampered.Core.Modes.{mode_commands, mode_changed, select_auto_mode, reapply_auto_mode}
use ampered.Core.Cycle.{leave_cycle, cycle_failure, power_is_back, cancel_cycle}
use ampered.Core.Events.{on_activity, on_ac_changed}
use ampered.Core.Handle.{announce, dispatch, handle}

-- Commands that only some handlers send.
abbrev pub is_special : Command → Bool
is_special (Command.dim percent) = true
is_special (Command.suspend method force) = true
is_special Command.power_off = true
is_special (Command.reply id response) = true
is_special (Command.reload to) = true
is_special Command.shutdown = true
is_special _ = false

-- A test that holds of special commands only.
abbrev pub IsSpecial : (Command → Bool) → Type 0
IsSpecial p = (c : Command) → is_special c ≡ false → p c ≡ false

pub count-zero :
    (p : Command → Bool) (cs : List Command)
    → IsSpecial p
    → count is_special cs ≡ 0
    → count p cs ≡ 0
count-zero p [] s h = refl
count-zero p (c ∷ cs) s h = ground (arith, s c, count-zero p cs s)

pub announce-routine : (from : State) (e : Engine) → count is_special (announce from e) ≡ 0
unfolding announce
announce-routine from e = ground arith

pub mode_commands-routine : (e : Engine) → count is_special (mode_commands e) ≡ 0
unfolding mode_commands
mode_commands-routine e = ground arith

pub reapply_auto_mode-routine : (e : Engine) → count is_special (reapply_auto_mode e).1 ≡ 0
unfolding reapply_auto_mode select_auto_mode mode_changed mode_commands
reapply_auto_mode-routine e = ground arith

pub leave_cycle-routine : (e : Engine) → count is_special (leave_cycle e).1 ≡ 0
unfolding leave_cycle select_auto_mode mode_commands
leave_cycle-routine e = ground arith

pub power_is_back-routine : (e : Engine) → count is_special (power_is_back e).1 ≡ 0
unfolding power_is_back leave_cycle select_auto_mode mode_commands
power_is_back-routine e = ground arith

pub cycle_failure-routine : (e : Engine) → count is_special (cycle_failure e).1 ≡ 0
unfolding cycle_failure leave_cycle select_auto_mode mode_commands
cycle_failure-routine e = ground arith

pub cancel_cycle-routine :
    (phase : Phase) (e : Engine) → count is_special (cancel_cycle phase e).1 ≡ 0
unfolding cancel_cycle leave_cycle select_auto_mode mode_commands
cancel_cycle-routine phase e = ground arith

pub on_activity-routine : (e : Engine) → count is_special (on_activity e).1 ≡ 0
unfolding on_activity leave_cycle select_auto_mode mode_commands
on_activity-routine e = ground arith

pub on_ac_changed-routine : (ac : Bool) (e : Engine) → count is_special (on_ac_changed ac e).1 ≡ 0
unfolding on_ac_changed leave_cycle select_auto_mode mode_commands reapply_auto_mode mode_changed
on_ac_changed-routine ac e = ground arith

-- What `handle` adds to a dispatch is routine.
pub count-handle :
    (humantime : Duration → String) (p : Command → Bool) (event : Event) (e : Engine)
    → IsSpecial p
    → count p (handle humantime event e).1 ≡ count p (dispatch humantime event e).1
unfolding handle
count-handle humantime p event e s =
    let (e', commands) = dispatch humantime event e in
    omega (
      arith,
      count-append p commands (announce e.state e'),
      count-zero p (announce e.state e') s (announce-routine e.state e'),
    )
