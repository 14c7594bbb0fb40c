-- ===== src/Daemon/Execute.antt =====
-- `Daemon::execute` of src/main.rs: each command of the engine is carried out, and where the engine
-- waits for the outcome it is told, which yields more commands.
use ampered.Prelude.{
  ℕ, ◌+◌, Bool, true, false, not, ◌&&◌, List, [], ◌∷◌, ◌++◌, Option, none, some, String,
  if◌then◌else◌,
}
use ampered.Config.Sections.{SleepMethod, Mode, get_mode}
use ampered.Core.Types.{Engine, Event, Command, ModeSelection, TimerId}
use ampered.Core.Handle.{handle}
use ampered.Ipc
use ampered.Ipc.{RequestId, Response, StateEvent, StatusData}
use ampered.Ipc.Server.{reply, broadcast}
use ampered.Timers.Table.{Timers, start, cancel, deadline}
use ampered.Backlight.Controller.{dim_to, restore, info}
use ampered.Agent.Link.{replace_stages, set_screen, is_connected, can_blank}
use ampered.Logind.Actor.{LogindHandle, suspend, request_power_off}
use ampered.Logind.Idle.{engaged}
use ampered.Logind.Saved.{save_manual_mode}
use ampered.Wake.Planner.{armed, disarmed}
use ampered.Daemon.State.{Daemon, World, Outside, remember, map_time}
use ampered.Daemon.Reload.{reload}

pub data Outcome : Type 0 where
  continue_ : List Command → Outcome
  shutdown : Outcome

module _ {R : Type 0} (o : Outside R) where
  abbrev pub Step : Type 0
  Step = Daemon R × Engine × Outcome

  unfoldable pub told : Daemon R → Engine × List Command → Step
  told d (e, commands) = (d, e, Outcome.continue_ commands)

  unfoldable pub delivered : Bool → Daemon R → Engine → Step
  unfolding told
  delivered true d e = (d, e, Outcome.continue_ [])
  delivered false d e = told d (handle o.humantime Event.sleep_failed e)

  unfoldable pub suspend_by : Option LogindHandle → SleepMethod → Bool → Daemon R → Engine → Step
  unfolding delivered suspend
  suspend_by none method force d e = delivered false d e
  suspend_by (some logind) method force d e =
      let (logind', sent) = suspend method force d.config.sleep.respect_inhibitors logind in
      delivered sent (record d { logind = some logind' }) e

  unfoldable pub set_alarm : Option R → ℕ → Option R × Bool
  set_alarm none at = (none, false)
  set_alarm (some r) at = let (r', done) = o.rtc.set at r in (some r', done)

  unfoldable pub schedule_wake : ℕ → Daemon R → Engine → Step
  unfolding set_alarm told armed disarmed remember
  schedule_wake at d e =
      let (rtc, done) = set_alarm d.rtc at in
      let d' : Daemon R = record d {
        rtc = rtc;
        planner = if done then armed at d.planner else disarmed d.planner;
      } in
      let (e', commands) = handle o.humantime (Event.wake_scheduled done) e in
      told (remember o.rfc3339 e' d') (e', commands)

  clear_alarm : Option R → Option R
  clear_alarm none = none
  clear_alarm (some r) = some (o.rtc.clear r).0

  unfoldable pub turn_off : Option LogindHandle → Option LogindHandle
  unfolding request_power_off
  turn_off none = none
  turn_off (some logind) = some (request_power_off logind)

  alarm_of : Option ℕ → Option R → Option ℕ
  alarm_of (some at) rtc = some at
  alarm_of none none = none
  alarm_of none (some r) = o.rtc.pending r

  -- `next_wake`: the alarm we armed, or whatever the RTC reports.
  unfoldable pub next_wake : Daemon R → Option String
  unfolding alarm_of map_time
  next_wake d = map_time o.rfc3339 (alarm_of d.planner.alarm d.rtc)

  unfoldable pub apply_mode : String → Option Mode → Daemon R → Daemon R
  apply_mode name none d = d
  apply_mode name (some mode) d = record d { applied = d.applied ++ name ∷ [] }

  manual_name : ModeSelection → String → Option String
  manual_name (ModeSelection.manual chosen) name = some name
  manual_name (ModeSelection.auto chosen) name = none

  abbrev entry_if : Bool → String → List String
  entry_if test entry = if test then entry ∷ [] else []

  expires : Timers → Ipc.InhibitorInfo → Ipc.InhibitorInfo
  unfolding deadline map_time
  expires timers i = record i {
    expires = map_time o.rfc3339 (deadline (TimerId.inhibit_expiry i.id) timers);
  }

  expiring : Timers → List Ipc.InhibitorInfo → List Ipc.InhibitorInfo
  unfolding expires
  expiring timers [] = []
  expiring timers (i ∷ rest) = expires timers i ∷ expiring timers rest

  -- `enrich_status`: what the engine does not know.
  unfoldable pub enrich_status : Daemon R → StatusData → StatusData
  unfolding is_connected can_blank info engaged expiring next_wake
  enrich_status d s = record s {
    degraded =
        d.degraded
        ++ (entry_if (not d.supply.readable) "power"
            ++ (entry_if (not (is_connected d.agent)) "agent"
                ++ (entry_if (not (can_blank d.agent)) "display"
                    ++ entry_if (not s.idle.connected) "wayland")));
    power = record s.power { batteries = d.supply.latest.batteries };
    backlight = info d.backlight;
    idle = record s.idle {
      backend = if not s.idle.connected && engaged d.fallback then "logind" else d.agent.backend;
    };
    server = record s.server { next_wake = next_wake d };
    inhibitors = expiring d.timers s.inhibitors;
  }

  unfoldable pub enriched : Daemon R → Response → Response
  unfolding enrich_status
  enriched d (Response.status status) = Response.status (enrich_status d status)
  enriched d response = response

  -- `Daemon::reply`.
  unfoldable pub answer_client : RequestId → Response → Daemon R → Daemon R
  unfolding enriched reply
  answer_client id response d = record d { server = reply id (enriched d response) d.server }

  unfoldable pub tell : World R → StateEvent → Daemon R → Engine → Daemon R
  unfolding manual_name broadcast save_manual_mode next_wake
  tell w (StateEvent.mode name) d e = record d {
    mode_file = save_manual_mode w.writable (manual_name e.mode name) d.mode_file;
    server = broadcast (StateEvent.mode name) d.server;
  }
  tell w (StateEvent.long_sleep phase wake) d e = record d {
    server = broadcast (StateEvent.long_sleep phase (next_wake d)) d.server;
  }
  tell w event d e = record d { server = broadcast event d.server }

  unfoldable pub reloaded : Daemon R × Engine × List Command → Step
  reloaded (d, e, commands) = (d, e, Outcome.continue_ commands)

  -- A command that needs nothing of the engine.
  unfoldable pub effect : World R → Command → Daemon R → Engine → Daemon R
  unfolding start cancel replace_stages disarmed clear_alarm turn_off set_screen dim_to restore
      apply_mode answer_client tell
  effect w (Command.start_timer id after) d e = record d { timers = start id w.now after d.timers }
  effect w (Command.cancel_timer id) d e = record d { timers = cancel id d.timers }
  effect w (Command.replace_idle_stages stages) d e = record d {
    fallback = record d.fallback { sleep_after = stages.sleep };
    agent = replace_stages o.humantime stages d.agent;
  }
  effect w Command.cancel_wake d e = record d {
    planner = disarmed d.planner;
    rtc = clear_alarm d.rtc;
  }
  effect w Command.power_off d e = record d { logind = turn_off d.logind }
  effect w (Command.run_hook hook) d e = record d { hooks = d.hooks ++ hook ∷ [] }
  effect w (Command.screen on) d e = record d { agent = set_screen on d.agent }
  effect w (Command.dim percent) d e = record d { backlight = dim_to percent d.backlight }
  effect w Command.undim d e = record d { backlight = restore d.backlight }
  effect w (Command.apply_mode name) d e = apply_mode name (get_mode d.config.modes name) d
  effect w (Command.reply id response) d e = answer_client id response d
  effect w (Command.broadcast event) d e = tell w event d e
  effect w _ d e = d

  -- `execute`.
  unfoldable pub execute : World R → Command → Daemon R → Engine → Step
  unfolding suspend_by schedule_wake reloaded reload effect
  execute w (Command.suspend method force) d e = suspend_by d.logind method force d e
  execute w (Command.schedule_wake after) d e = schedule_wake (w.now + after) d e
  execute w (Command.reload reply_to) d e = reloaded (reload reply_to w d e)
  execute w Command.shutdown d e = (d, e, Outcome.shutdown)
  execute w command d e = (effect w command d e, e, Outcome.continue_ [])
