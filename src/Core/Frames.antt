-- ===== src/Core/Frames.antt =====
-- What the choice of a mode leaves alone: every field but the mode. And the commands of the choice,
-- as one list that no proof about the rest has to look into.
use ampered.Prelude.{◌≡◌, arith}
use ampered.Core.Types.{Engine, State}
use ampered.Core.Modes.{select_auto_mode, reapply_auto_mode}
use ampered.Core.Cycle.{leave_cycle}

pub select_auto_mode-frame :
    (e : Engine) → (select_auto_mode e).0 ≡ record e { mode = (select_auto_mode e).0.mode }
unfolding select_auto_mode
select_auto_mode-frame e = ground arith

pub reapply_auto_mode-frame :
    (e : Engine) → (reapply_auto_mode e).0 ≡ record e { mode = (reapply_auto_mode e).0.mode }
unfolding reapply_auto_mode select_auto_mode
reapply_auto_mode-frame e = ground arith

pub leave_cycle-frame :
    (e : Engine)
    → (leave_cycle e).0 ≡ record e { state = State.active; mode = (leave_cycle e).0.mode }
unfolding leave_cycle select_auto_mode
leave_cycle-frame e = ground arith
