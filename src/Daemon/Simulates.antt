-- ===== src/Daemon/Simulates.antt =====
-- What the daemon of src/main.rs has (its timers, its alarm, the stages of its agent) beside the machine
-- that the engine's commands describe.
use ampered.Prelude.{
  ap, ◌∙◌, ℕ, ◌≡◌, refl, arith, Bool, true, false, Option, none, some, String, is_some,
}
use ampered.Config.Sections.{Mode, get_mode}
use ampered.Ipc
use ampered.Core.Types.{Engine, Command, TimerId}
use ampered.Core.Machine.{Machine, set_timer}
use ampered.Core.Machine.{execute as act}
use ampered.Timers.Table.{Timers, same_timer, lookup, without, start, cancel}
use ampered.Timers.Stale.{lookup-without, lookup-without_other, same_timer_refl}
use ampered.Agent.Link.{send, replace_stages, set_screen}
use ampered.Wake.Planner.{disarmed}
use ampered.Daemon.State.{Daemon, World, Outside}
use ampered.Daemon.Execute.{effect, apply_mode, tell, answer_client}

no_true : {A : Type 0} → false ≡ true → A
no_true h = absurd (ground arith)

unfoldable pub runs : TimerId → Timers → Bool
runs id t = is_some (lookup id t.running)

-- The timers that the engine waits for run in both, an alarm that the daemon remembers is armed in the
-- machine, and the stages are the same.
pub record IsSimulated {R : Type 0} (d : Daemon R) (m : Machine) : Type 0 where
  pub grace : runs TimerId.grace d.timers ≡ m.grace_timer
  pub window : runs TimerId.awake_window d.timers ≡ m.window_timer
  pub retry : runs TimerId.sleep_retry d.timers ≡ m.retry_timer
  pub alarm : is_some d.planner.alarm ≡ true → m.alarm ≡ true
  pub stages : d.agent.stages ≡ m.stages

dropped-same :
    (id : TimerId) (t t' : Timers) → t'.running ≡ without id t.running → runs id t' ≡ false
unfolding runs
dropped-same id t t' h =
    ap (λ l. is_some (lookup id l)) h ∙ ap is_some (lookup-without id t.running)

dropped-other :
    (id other : TimerId) (t t' : Timers)
    → t'.running ≡ without id t.running
    → same_timer id other ≡ false
    → runs other t' ≡ runs other t
unfolding runs
dropped-other id other t t' h differs =
    ap (λ l. is_some (lookup other l)) h
    ∙ ap is_some (lookup-without_other id other t.running differs)

runs-start-same :
    (id : TimerId) (now after : ℕ) (t : Timers) → runs id (start id now after t) ≡ true
unfolding runs start lookup
runs-start-same id now after t = rw (same_timer_refl id) refl

runs-start-other :
    (id other : TimerId) (now after : ℕ) (t : Timers)
    → same_timer id other ≡ false
    → runs other (start id now after t) ≡ runs other t
unfolding runs start lookup cancel
runs-start-other id other now after t h = rw h (dropped-other id other t (cancel id t) refl h)

-- Only the timers, the planner and the stages count.
pub kept-IsSimulated :
    {R : Type 0} (d d' : Daemon R) (m : Machine)
    → d'.timers.running ≡ d.timers.running
    → (is_some d'.planner.alarm ≡ true → is_some d.planner.alarm ≡ true)
    → d'.agent.stages ≡ d.agent.stages
    → IsSimulated d m
    → IsSimulated d' m
unfolding runs
kept-IsSimulated d d' m t p a s = record {
  grace = ap (λ l. is_some (lookup TimerId.grace l)) t ∙ s.grace;
  window = ap (λ l. is_some (lookup TimerId.awake_window l)) t ∙ s.window;
  retry = ap (λ l. is_some (lookup TimerId.sleep_retry l)) t ∙ s.retry;
  alarm = λ h. s.alarm (p h);
  stages = a ∙ s.stages;
}

module _ {R : Type 0} (o : Outside R) where
  start-IsSimulated :
      (id : TimerId) (now after : ℕ) (d : Daemon R) (m : Machine)
      → IsSimulated d m
      → IsSimulated (record d { timers = start id now after d.timers }) (set_timer id true m)
  unfolding same_timer
  start-IsSimulated TimerId.grace now after d m s = record {
    grace = runs-start-same TimerId.grace now after d.timers;
    window = runs-start-other TimerId.grace TimerId.awake_window now after d.timers refl ∙ s.window;
    retry = runs-start-other TimerId.grace TimerId.sleep_retry now after d.timers refl ∙ s.retry;
    alarm = s.alarm;
    stages = s.stages;
  }
  start-IsSimulated TimerId.awake_window now after d m s = record {
    grace = runs-start-other TimerId.awake_window TimerId.grace now after d.timers refl ∙ s.grace;
    window = runs-start-same TimerId.awake_window now after d.timers;
    retry =
        runs-start-other TimerId.awake_window TimerId.sleep_retry now after d.timers refl ∙ s.retry;
    alarm = s.alarm;
    stages = s.stages;
  }
  start-IsSimulated TimerId.sleep_retry now after d m s = record {
    grace = runs-start-other TimerId.sleep_retry TimerId.grace now after d.timers refl ∙ s.grace;
    window =
        runs-start-other TimerId.sleep_retry TimerId.awake_window now after d.timers refl
        ∙ s.window;
    retry = runs-start-same TimerId.sleep_retry now after d.timers;
    alarm = s.alarm;
    stages = s.stages;
  }
  start-IsSimulated (TimerId.inhibit_expiry n) now after d m s =
      let id = TimerId.inhibit_expiry n in
      record {
        grace = runs-start-other id TimerId.grace now after d.timers refl ∙ s.grace;
        window = runs-start-other id TimerId.awake_window now after d.timers refl ∙ s.window;
        retry = runs-start-other id TimerId.sleep_retry now after d.timers refl ∙ s.retry;
        alarm = s.alarm;
        stages = s.stages;
      }

  -- A timer that is taken off the table, by a cancel or because it has fired.
  pub cancel-IsSimulated :
      (id : TimerId) (d : Daemon R) (t : Timers) (m : Machine)
      → t.running ≡ without id d.timers.running
      → IsSimulated d m
      → IsSimulated (record d { timers = t }) (set_timer id false m)
  unfolding same_timer runs
  cancel-IsSimulated TimerId.grace d t m h s = record {
    grace = dropped-same TimerId.grace d.timers t h;
    window = dropped-other TimerId.grace TimerId.awake_window d.timers t h refl ∙ s.window;
    retry = dropped-other TimerId.grace TimerId.sleep_retry d.timers t h refl ∙ s.retry;
    alarm = s.alarm;
    stages = s.stages;
  }
  cancel-IsSimulated TimerId.awake_window d t m h s = record {
    grace = dropped-other TimerId.awake_window TimerId.grace d.timers t h refl ∙ s.grace;
    window = dropped-same TimerId.awake_window d.timers t h;
    retry = dropped-other TimerId.awake_window TimerId.sleep_retry d.timers t h refl ∙ s.retry;
    alarm = s.alarm;
    stages = s.stages;
  }
  cancel-IsSimulated TimerId.sleep_retry d t m h s = record {
    grace = dropped-other TimerId.sleep_retry TimerId.grace d.timers t h refl ∙ s.grace;
    window = dropped-other TimerId.sleep_retry TimerId.awake_window d.timers t h refl ∙ s.window;
    retry = dropped-same TimerId.sleep_retry d.timers t h;
    alarm = s.alarm;
    stages = s.stages;
  }
  cancel-IsSimulated (TimerId.inhibit_expiry n) d t m h s = record {
    grace = dropped-other (TimerId.inhibit_expiry n) TimerId.grace d.timers t h refl ∙ s.grace;
    window =
        dropped-other (TimerId.inhibit_expiry n) TimerId.awake_window d.timers t h refl ∙ s.window;
    retry =
        dropped-other (TimerId.inhibit_expiry n) TimerId.sleep_retry d.timers t h refl ∙ s.retry;
    alarm = s.alarm;
    stages = s.stages;
  }

  apply_mode-IsSimulated :
      (name : String) (mode : Option Mode) (d : Daemon R) (m : Machine)
      → IsSimulated d m
      → IsSimulated (apply_mode o name mode d) m
  unfolding apply_mode
  apply_mode-IsSimulated name none d m s = s
  apply_mode-IsSimulated name (some mode) d m s = record {
    grace = s.grace;
    window = s.window;
    retry = s.retry;
    alarm = s.alarm;
    stages = s.stages;
  }

  tell-IsSimulated :
      (w : World R) (event : Ipc.StateEvent) (d : Daemon R) (e : Engine) (m : Machine)
      → IsSimulated d m
      → IsSimulated (tell o w event d e) m
  unfolding tell
  tell-IsSimulated w (Ipc.StateEvent.mode name) d e m s = record {
    grace = s.grace;
    window = s.window;
    retry = s.retry;
    alarm = s.alarm;
    stages = s.stages;
  }
  tell-IsSimulated w (Ipc.StateEvent.long_sleep phase wake) d e m s = record {
    grace = s.grace;
    window = s.window;
    retry = s.retry;
    alarm = s.alarm;
    stages = s.stages;
  }
  tell-IsSimulated w event d e m s = record {
    grace = s.grace;
    window = s.window;
    retry = s.retry;
    alarm = s.alarm;
    stages = s.stages;
  }

  pub effect-IsSimulated :
      (w : World R) (c : Command) (d : Daemon R) (e : Engine) (m : Machine)
      → IsSimulated d m
      → IsSimulated (effect o w c d e) (act c m)
  unfolding effect cancel disarmed replace_stages set_screen send answer_client
  effect-IsSimulated w (Command.start_timer id after) d e m s =
      start-IsSimulated id w.now after d m s
  effect-IsSimulated w (Command.cancel_timer id) d e m s =
      cancel-IsSimulated id d (cancel id d.timers) m refl s
  effect-IsSimulated w (Command.replace_idle_stages stages) d e m s = record {
    grace = s.grace;
    window = s.window;
    retry = s.retry;
    alarm = s.alarm;
    stages = refl;
  }
  effect-IsSimulated w Command.cancel_wake d e m s = record {
    grace = s.grace;
    window = s.window;
    retry = s.retry;
    alarm = λ h. no_true h;
    stages = s.stages;
  }
  effect-IsSimulated w (Command.apply_mode name) d e m s =
      apply_mode-IsSimulated name (get_mode d.config.modes name) d m s
  effect-IsSimulated w (Command.broadcast event) d e m s = tell-IsSimulated w event d e m s
  effect-IsSimulated w (Command.schedule_wake after) d e m s = record {
    grace = s.grace;
    window = s.window;
    retry = s.retry;
    alarm = λ _. refl;
    stages = s.stages;
  }
  effect-IsSimulated w (Command.screen on) d e m s = record {
    grace = s.grace;
    window = s.window;
    retry = s.retry;
    alarm = s.alarm;
    stages = s.stages;
  }
  effect-IsSimulated w _ d e m s = record {
    grace = s.grace;
    window = s.window;
    retry = s.retry;
    alarm = s.alarm;
    stages = s.stages;
  }
