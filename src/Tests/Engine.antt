-- ===== src/Tests/Engine.antt =====
-- The theorems on the engine at concrete states (src/core.rs).
use native.Mathlib.Omega.{arith}
use ampered.Prelude.{◌<◌, ◌≡◌, refl, true, false, [], ◌∷◌, count, ◌++◌}
use ampered.Config.Durations.{from_secs}
use ampered.Ipc
use ampered.Core.Types.{Engine, State, Phase, Event, Command, TimerId, Stage, from_mode, Inhibit}
use ampered.Core.Modes.{is_past_grace, stages, start, new}
use ampered.Core.Events.{in_cycle}
use ampered.Core.Sleep.{sleep_blockers}
use ampered.Core.Handle.{announce, handle, run}
use ampered.Core.Code.{dispatch_code}
use ampered.Core.Machine.{Machine, after, perform}
use ampered.Core.Replies.{answered, handle-answered}
use ampered.Core.Safety.{
  is_power_off, is_suspend, MayPowerOff, MaySuspend, handle-power_off, handle-suspend,
}
use ampered.Core.Invariant.{Inv, handle-Inv}
use ampered.Core.Alarm.{AlarmInCycle, handle-AlarmInCycle}
use ampered.Core.Deadlines.{TimersRun}
use ampered.Core.Attempts.{Waits, attempting, outcome, handle-HasDeadline}
use ampered.Core.Screen.{ScreenShows, handle-ScreenShows}
use ampered.Core.IdleStages.{StagesLive, handle-StagesLive}
use ampered.Core.Life.{Life, Agree, Life-Agree}
use ampered.Core.Numbered.{WellNumbered, handle-WellNumbered, inhibit-uninhibit}
use ampered.Core.GiveUp.{IsFailure, run-gives_up, window_over}
use ampered.Core.Findings.{grace-dark, sleep_twice-stuck}
use ampered.Tests.Samples.{humantime, config, discharging, engine, machine}

abbrev active : Engine
active = engine State.active

-- At its third check of the battery, which is empty.
abbrev empty : Engine
empty = record (engine (State.long_sleep Phase.checking)) { power = discharging 5 }

abbrev armed : Engine
armed = engine (State.long_sleep Phase.armed)

abbrev in_grace : Engine
in_grace = record (engine (State.long_sleep Phase.grace)) { suspend_from = State.screen_off }

abbrev ac_lost : Event
ac_lost = Event.ac_changed false

-- An engine with an inhibitor of idleness.
abbrev inhibited : Engine
inhibited = record active {
  inhibits = record { id = 1; what = Ipc.InhibitWhat.idle; why = "film"; ttl = from_secs 60 } ∷ [];
  next_inhibit_id = 2;
}

active-Inv : Inv active
unfolding in_cycle
active-Inv = ground arith

handle-answered_example :
    answered (handle humantime (Event.ipc 7 Ipc.Request.reload) active).1 ≡ 7 ∷ []
handle-answered_example = handle-answered humantime active 7 Ipc.Request.reload

turns_off : 0 < count is_power_off (handle humantime window_over empty).1
unfolding dispatch_code handle
turns_off = ground arith

handle-power_off_example : MayPowerOff empty
handle-power_off_example = handle-power_off humantime window_over empty turns_off

suspends : 0 < count is_suspend (handle humantime (Event.wake_scheduled true) armed).1
unfolding dispatch_code handle announce sleep_blockers
suspends = ground arith

not_pending : armed.pending_sleep ≡ true → in_cycle armed.state ≡ false
not_pending h = ground arith

handle-suspend_example : MaySuspend (Event.wake_scheduled true) armed
handle-suspend_example =
    handle-suspend humantime (Event.wake_scheduled true) armed not_pending suspends

handle-Inv_example : Inv (handle humantime ac_lost active).0
handle-Inv_example = handle-Inv humantime ac_lost active active-Inv

armed-Inv : Inv armed
unfolding in_cycle
armed-Inv = ground arith

past : is_past_grace armed.state ≡ true
unfolding is_past_grace
past = refl

handle-AlarmInCycle_example :
    AlarmInCycle
      (handle humantime Event.sleep_failed armed).0
      (after humantime Event.sleep_failed armed (record machine { alarm = true }))
handle-AlarmInCycle_example =
    handle-AlarmInCycle humantime Event.sleep_failed armed (record machine { alarm = true })
      armed-Inv (λ h. past)

armed_runs : TimersRun armed machine
armed_runs = record {
  grace = λ h. ground arith;
  window = λ h. ground arith;
  retry = λ h. ground arith;
}

in_grace-Inv : Inv in_grace
unfolding in_cycle
in_grace-Inv = ground arith

-- An attempt fails: the awake window is started.
handle-HasDeadline_example :
    let (e', commands) = handle humantime Event.sleep_failed armed in
    let m' = after humantime Event.sleep_failed armed machine in
    TimersRun e' m' × Waits e' m' (attempting commands (outcome Event.sleep_failed true))
handle-HasDeadline_example =
    handle-HasDeadline humantime Event.sleep_failed armed machine true armed-Inv armed_runs
      (λ h. ground arith)

handle-ScreenShows_example :
    ScreenShows
      (handle humantime (Event.idle Stage.dim) active).0
      (after humantime (Event.idle Stage.dim) active machine)
handle-ScreenShows_example =
    handle-ScreenShows humantime (Event.idle Stage.dim) active machine active-Inv refl (refl, refl)

has_stages : StagesLive active machine
unfolding is_past_grace stages from_mode
has_stages h = refl

handle-StagesLive_example :
    StagesLive
      (handle humantime (Event.idle Stage.dim) active).0
      (after humantime (Event.idle Stage.dim) active machine)
handle-StagesLive_example =
    handle-StagesLive humantime (Event.idle Stage.dim) active machine active-Inv refl has_stages

abbrev after_boot : Machine
after_boot = perform (start (new config (discharging 50))) machine

life : Life humantime (new config (discharging 50)) after_boot
life =
    Life.boot config (discharging 50) machine (record { lit = refl; bright = refl; unarmed = refl })

Life-Agree_example : Agree (new config (discharging 50)) after_boot
Life-Agree_example = Life-Agree humantime life

inhibited-WellNumbered : WellNumbered inhibited
inhibited-WellNumbered = record {
  below = (omega arith, tt);
  distinct = (tt, tt);
  limited = ((omega arith, omega arith), tt);
}

handle-WellNumbered_example :
    WellNumbered
      (handle humantime
        (Event.ipc 3 (Ipc.Request.inhibit Ipc.InhibitWhat.sleep "backup" (from_secs 90)))
        inhibited).0
handle-WellNumbered_example =
    handle-WellNumbered humantime
      (Event.ipc 3 (Ipc.Request.inhibit Ipc.InhibitWhat.sleep "backup" (from_secs 90))) inhibited
      (omega arith) inhibited-WellNumbered

-- An inhibitor is asked for and withdrawn.
inhibit-uninhibit_example :
    let ask = Event.ipc 3 (Ipc.Request.inhibit Ipc.InhibitWhat.sleep "backup" (from_secs 90)) in
    let first = handle humantime ask inhibited in
    let added : Inhibit = record {
      id = 2;
      what = Ipc.InhibitWhat.sleep;
      why = "backup";
      ttl = from_secs 90;
    } in
    (first.0.inhibits ≡ inhibited.inhibits ++ added ∷ [])
    × (first.1
        ≡ Command.start_timer (TimerId.inhibit_expiry 2) (from_secs 90)
          ∷ (Command.reply 3 (Ipc.Response.inhibited 2) ∷ []))
    × ((handle humantime (Event.ipc 4 (Ipc.Request.uninhibit 2)) first.0).0.inhibits
        ≡ inhibited.inhibits)
inhibit-uninhibit_example =
    inhibit-uninhibit humantime inhibited 3 4 Ipc.InhibitWhat.sleep "backup" (from_secs 90)
      inhibited-WellNumbered (omega arith)

run-gives_up_example :
    (run humantime
      (Event.sleep_failed
        ∷ (window_over ∷ (Event.wake_scheduled false ∷ (window_over ∷ (Event.activity ∷ [])))))
      armed).state
    ≡ State.active
run-gives_up_example =
    run-gives_up humantime armed Event.sleep_failed (Event.wake_scheduled false) Event.activity
      IsFailure.refused IsFailure.no_alarm IsFailure.touched refl refl refl

-- The screen was dark when the charger was unplugged.
abbrev dark : Machine
dark = record machine { screen_on = false; grace_timer = true }

grace-dark_example :
    let back = Event.ac_changed true in
    let e₁ = (handle humantime back in_grace).0 in
    let m₁ = after humantime back in_grace dark in
    let m₂ = after humantime Event.activity e₁ m₁ in
    ((handle humantime Event.activity e₁).0.state ≡ State.active)
    × (m₂.screen_on ≡ false)
    × (m₂.dimmed ≡ false)
grace-dark_example = grace-dark humantime in_grace dark refl refl

sleep_twice-stuck_example :
    (handle humantime
      (Event.sleep_blocked [])
      (handle humantime (Event.ipc 5 (Ipc.Request.sleep true)) (engine State.suspending)).0).0.state
    ≡ State.suspending
sleep_twice-stuck_example = sleep_twice-stuck humantime (engine State.suspending) 5 [] refl
