-- ===== src/Tests/Daemon.antt =====
-- The daemon at a concrete start and its first events (src/main.rs).
use ampered.Prelude.{
  inr, ℕ, ◌+◌, ◌≡◌, ◌≢◌, refl, arith, true, false, [], ◌∷◌, Option, none, some, is_some,
}
use ampered.Config.Durations.{from_secs}
use ampered.Ipc
use ampered.Ipc.{RequestId}
use ampered.Ipc.Server.{waits}
use ampered.Core.Types.{Engine, Event, State, TimerId, on_ac, no_stages}
use ampered.Core.Modes.{start, new, stages, is_past_grace}
use ampered.Core.Handle.{handle, announce}
use ampered.Core.Code.{dispatch_code}
use ampered.Core.Deadlines.{is_grace, is_checking}
use ampered.Backlight.Controller.{Dimming}
use ampered.Daemon.State.{Daemon, World, Outside, RtcAlarm, Loaded}
use ampered.Daemon.Execute.{execute, effect, suspend_by, schedule_wake}
use ampered.Daemon.Loop.{Drained, drain, continued, round, before_handle, boot}
use ampered.Daemon.Rule.{WhenIdle}
use ampered.Daemon.Ends.{is_over, is_over-round}
use ampered.Daemon.NotStuck.{refuses, round-IsNotStuck}
use ampered.Daemon.Answers.{IsAnswered, round-IsAnswered}
use ampered.Daemon.Simulates.{runs}
use ampered.Agent.Link
use ampered.Agent.Link.{Stream, stages_op, register, send}
use ampered.Agent.Resend.{Step, view, blank}
use ampered.Daemon.Reached.{Reached, IsNew, Reached-IsReady}
use ampered.Tests.Samples.{config, humantime, engine}

-- An RTC that keeps what is set.
abbrev clock : RtcAlarm (Option ℕ)
clock = record { set = λ at r. (some at, true); clear = λ r. (none, true); pending = λ r. r }

abbrev outside : Outside (Option ℕ)
outside = record { humantime = humantime; rfc3339 = λ at. "2026-01-01T00:00:00Z"; rtc = clock }

abbrev world : World (Option ℕ)
world = record {
  now = from_secs 1000;
  file = Loaded.loaded config;
  device = none;
  clock = some none;
  dirs = [];
  writable = true;
}

abbrev worlds : ℕ → World (Option ℕ)
worlds k = world

-- The daemon before its first command, with a client that waits for an answer, and without the bus.
abbrev fresh : Daemon (Option ℕ)
fresh = record {
  config = config;
  server = record { pending = 7 ∷ []; delivered = []; broadcasts = []; next_id = 8; socket = none };
  timers = record { fired = []; next_generation = 0; running = [] };
  applied = [];
  hooks = [];
  backlight = record {
    sink = none;
    device = "";
    state = Dimming.active;
    pre_dim = none;
    written = 0;
    min_percent = 1;
    transition = 0;
    fade = none;
    complained = false;
  };
  agent = record {
    stream = none;
    next_id = 1;
    display = config.display;
    stages = no_stages;
    backend = "agent";
    backend_connected = false;
    display_available = false;
  };
  logind = none;
  saved = record { state = ""; mode = ""; reason = ""; scheduled_wake = none; saved_at = none };
  mode_file = none;
  supply = record { refreshes = []; previous = on_ac; latest = on_ac; readable = true };
  fallback = record { enabled = false; compositor = false; sleep_after = none };
  rtc = some none;
  planner = record { alarm = none };
  notifier = record { active = true; sent = [] };
  last_status = "";
  degraded = [];
}

is_over-round_example :
    (fuel : ℕ) × ((more : ℕ)
      → is_over outside (
          round outside (more + fuel) worlds 0 (Event.ac_changed false) fresh (engine State.active))
        ≡ true)
is_over-round_example =
    is_over-round outside worlds 0 (Event.ac_changed false) fresh (engine State.active)

not_suspending : (engine State.active).state ≢ State.suspending
not_suspending h = grind arith

no_bus : refuses fresh.logind ≡ true
unfolding refuses
no_bus = refl

round-IsNotStuck_example :
    WhenIdle outside
      (λ d e. e.state ≢ State.suspending)
      (round outside 9 worlds 0 (Event.ipc 7 (Ipc.Request.sleep true)) fresh (engine State.active))
round-IsNotStuck_example =
    round-IsNotStuck outside 9 worlds 0 (Event.ipc 7 (Ipc.Request.sleep true)) fresh
      (engine State.active) no_bus not_suspending

client_waits : waits 7 fresh.server.pending ≡ true
unfolding waits
client_waits = refl

round-IsAnswered_example :
    WhenIdle outside
      (λ d e. IsAnswered 7 fresh.server d.server)
      (round outside 9 worlds 0 (Event.ipc 7 (Ipc.Request.reload)) fresh (engine State.active))
round-IsAnswered_example =
    round-IsAnswered outside 9 worlds 0 7 Ipc.Request.reload fresh (engine State.active)
      client_waits

-- The daemon that an outcome leaves, or the one before it.
abbrev daemon_of : Drained (Option ℕ) → Daemon (Option ℕ)
daemon_of (Drained.idle d e) = d
daemon_of _ = fresh

abbrev engine_of : Drained (Option ℕ) → Engine
engine_of (Drained.idle d e) = e
engine_of _ = engine State.active

-- The daemon starts on battery power; then the charger comes, and goes.
abbrev begun : Drained (Option ℕ)
begun =
    let b = boot humantime config on_ac true none true none in
    drain outside 20 worlds 0 b.0.1 fresh b.0.0

abbrev unplugged : Drained (Option ℕ)
unplugged = round outside 20 worlds 0 (Event.ac_changed false) (daemon_of begun) (engine_of begun)

fresh-IsNew : IsNew outside fresh
unfolding Link.new
fresh-IsNew = record { no_timer = refl; no_alarm = refl; display = config.display; unlinked = refl }

begun-idle : begun ≡ Drained.idle (daemon_of begun) (engine_of begun)
unfolding boot drain continued execute effect suspend_by schedule_wake dispatch_code handle announce
    start new
begun-idle = refl

in_grace-idle : unplugged ≡ Drained.idle (daemon_of unplugged) (engine_of unplugged)
unfolding boot drain continued execute effect suspend_by schedule_wake dispatch_code handle announce
    start new round before_handle
in_grace-idle = refl

in_grace-Reached : Reached outside (daemon_of unplugged) (engine_of unplugged)
in_grace-Reached =
    Reached.handled (Event.ac_changed false) 0 20 worlds
      (Reached.started config on_ac true none true none 20 worlds fresh-IsNew begun-idle) refl refl
      refl in_grace-idle

-- An agent registers in the grace period.
abbrev linked : Daemon (Option ℕ)
linked = record (daemon_of unplugged) {
  agent = (register outside.humantime (daemon_of unplugged).agent).0;
}

linked-Reached : Reached outside linked (engine_of unplugged)
unfolding register send
linked-Reached =
    Reached.aside in_grace-Reached refl refl refl (inr (Step.registers (daemon_of unplugged).agent))

Reached-IsReady_example :
    let e = engine_of unplugged in
    (is_grace e.state ≡ true → runs TimerId.grace linked.timers ≡ true)
    × (is_checking e.state ≡ true → runs TimerId.awake_window linked.timers ≡ true)
    × (e.pending_sleep ≡ true → runs TimerId.sleep_retry linked.timers ≡ true)
    × (is_some linked.planner.alarm ≡ true → is_past_grace e.state ≡ true)
    × (is_past_grace e.state ≡ false
        → (linked.agent.stages ≡ stages e)
          × ((s : Stream)
              → linked.agent.stream ≡ some s
              → (view s.sent blank).stages ≡ some (stages_op outside.humantime (stages e))))
Reached-IsReady_example = Reached-IsReady outside linked-Reached

in_grace : is_grace (engine_of unplugged).state ≡ true
unfolding boot drain continued execute effect suspend_by schedule_wake dispatch_code handle announce
    start new round before_handle
in_grace = refl
