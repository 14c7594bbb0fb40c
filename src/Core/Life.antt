-- ===== src/Core/Life.antt =====
-- The engine's life beside the machine, without the request to stop and without power that comes back in
-- a grace period: booted as src/main.rs does it, then events, reloads
-- and, right after the boot, the cycle of a previous run.
use ampered.Prelude.{◌≡◌, refl, true, false, String, arith}
use ampered.Config.Durations.{Duration}
use ampered.Config.Sections.{Config}
use ampered.Core.Types.{Engine, Event, State, PowerSnapshot}
use ampered.Core.Modes.{new, start, set_config, restore_manual_mode, is_past_grace}
use ampered.Core.Cycle.{resume_cycle}
use ampered.Core.Events.{in_cycle}
use ampered.Core.Handle.{handle}
use ampered.Core.Invariant.{Inv, handle-Inv}
use ampered.Core.Machine.{Machine, perform, after, mode_commands-perform, wanted_stages}
use ampered.Core.Alarm.{AlarmInCycle, handle-AlarmInCycle}
use ampered.Core.Deadlines.{TimersRun, handle-TimersRun}
use ampered.Core.Screen.{ScreenShows, handle-ScreenShows, power_back_in_grace}
use ampered.Core.IdleStages.{StagesLive, handle-StagesLive, is_shutdown}

-- The machine before the daemon starts: lit, undimmed, and with no alarm of ours.
pub record IsFresh (m : Machine) : Type 0 where
  pub lit : m.screen_on ≡ true
  pub bright : m.dimmed ≡ false
  pub unarmed : m.alarm ≡ false

module _ (humantime : Duration → String) where
  pub data Life : Engine → Machine → Type 0 where
    boot :
        (c : Config) (p : PowerSnapshot) (m : Machine)
        → IsFresh m
        → Life (new c p) (perform (start (new c p)) m)
    boot_manual :
        (c : Config) (p : PowerSnapshot) (name : String) (m : Machine)
        → IsFresh m
        → Life
            (restore_manual_mode (new c p) name).0
            (perform (start (restore_manual_mode (new c p) name).0) m)
    resumed :
        {e : Engine} {m : Machine}
        → Life e m
        → e.state ≡ State.active
        → e.pending_sleep ≡ false
        → e.sleep_failures ≡ 0
        → Life (resume_cycle e).0 (perform (resume_cycle e).1 m)
    event :
        {e : Engine} {m : Machine} (ev : Event)
        → Life e m
        → power_back_in_grace ev e ≡ false
        → is_shutdown ev ≡ false
        → Life (handle humantime ev e).0 (after humantime ev e m)
    reload :
        {e : Engine} {m : Machine} (c : Config)
        → Life e m
        → Life (set_config e c).0 (perform (set_config e c).1 m)

-- Engine and machine agree.
pub record Agree (e : Engine) (m : Machine) : Type 0 where
  pub inv : Inv e
  pub screen : ScreenShows e m
  pub alarm : AlarmInCycle e m
  pub timers : TimersRun e m
  pub live : StagesLive e m

start-Agree :
    (e : Engine) (m : Machine)
    → IsFresh m
    → e.state ≡ State.active
    → Inv e
    → e.pending_sleep ≡ false
    → Agree e (perform (start e) m)
unfolding start wanted_stages is_past_grace
start-Agree e m f s v p = ground (arith, mode_commands-perform e m)

boot-Agree :
    (c : Config) (p : PowerSnapshot) (m : Machine)
    → IsFresh m
    → Agree (new c p) (perform (start (new c p)) m)
unfolding new in_cycle
boot-Agree c p m f =
    start-Agree (new c p) m f refl
      (record {
        few_failures = omega arith;
        cycle_lives = λ h. omega arith;
        retry_outside = λ h. refl;
        origin_outside = refl;
      })
      refl

boot_manual-Agree :
    (c : Config) (p : PowerSnapshot) (name : String) (m : Machine)
    → IsFresh m
    → Agree
        (restore_manual_mode (new c p) name).0
        (perform (start (restore_manual_mode (new c p) name).0) m)
unfolding restore_manual_mode new in_cycle
boot_manual-Agree c p name m f =
    start-Agree (restore_manual_mode (new c p) name).0 m f (ground arith) (ground arith)
      (ground arith)

resume_cycle-Agree :
    (e : Engine) (m : Machine)
    → Agree e m
    → e.state ≡ State.active
    → e.pending_sleep ≡ false
    → e.sleep_failures ≡ 0
    → Agree (resume_cycle e).0 (perform (resume_cycle e).1 m)
unfolding resume_cycle is_past_grace in_cycle
resume_cycle-Agree e m a s p f = ground arith

set_config-Agree :
    (e : Engine) (c : Config) (m : Machine)
    → Agree e m
    → Agree (set_config e c).0 (perform (set_config e c).1 m)
unfolding set_config is_past_grace wanted_stages
set_config-Agree e c m a = grind (arith, mode_commands-perform)

-- As long as the power does not come back in a grace period and no stop is requested, engine and machine
-- agree after the boot, every event, every reload and a resumed cycle: the engine's invariant holds, the screen and the brightness follow the state,
-- an alarm is armed only past the grace period, the timers that a state waits for are running,
-- and the compositor has the stages of the current mode outside the cycle and in its grace period.
pub Life-Agree :
    (humantime : Duration → String) {e : Engine} {m : Machine} → Life humantime e m → Agree e m
Life-Agree humantime (Life.boot c p m f) = boot-Agree c p m f
Life-Agree humantime (Life.boot_manual c p name m f) = boot_manual-Agree c p name m f
Life-Agree humantime (Life.resumed {e} {m} l s p f) =
    resume_cycle-Agree e m (Life-Agree humantime l) s p f
Life-Agree humantime (Life.event {e} {m} ev l g s) =
    let a = Life-Agree humantime l in
    record {
      inv = handle-Inv humantime ev e a.inv;
      screen = handle-ScreenShows humantime ev e m a.inv g a.screen;
      alarm = handle-AlarmInCycle humantime ev e m a.inv a.alarm;
      timers = handle-TimersRun humantime ev e m a.inv a.timers;
      live = handle-StagesLive humantime ev e m a.inv s a.live;
    }
Life-Agree humantime (Life.reload {e} {m} c l) = set_config-Agree e c m (Life-Agree humantime l)
