-- ===== src/Daemon/Start.antt =====
-- The start of src/main.rs (`run`): the parts of the daemon from what the world has, and what is missing.
use ampered.Prelude.{
  ap, ◌∙◌, ℕ, ◌≡◌, refl, Bool, true, false, not, ◌&&◌, List, [], ◌∷◌, ◌++◌, Option, none, some,
  String, if◌then◌else◌, is_some,
}
use ampered.Config.Sections.{Config}
use ampered.Core.Types.{Engine, PowerSnapshot, on_ac}
use ampered.Ipc.Server
use ampered.Ipc.Server.{Server}
use ampered.Timers.Table
use ampered.Backlight.Controller
use ampered.Backlight.Controller.{Controller}
use ampered.Agent.Link
use ampered.Wake.Planner
use ampered.Logind.Actor.{LogindHandle}
use ampered.Logind.Files.{check_dirs}
use ampered.Daemon.State.{Daemon, World, Outside, Notifier, notify, report, remember}
use ampered.Daemon.Reload.{rtc_for, is_available, uses_logind}
use ampered.Daemon.Frames.{report-frame}
use ampered.Daemon.Loop.{Drained, drain, boot}
use ampered.Daemon.Reached.{Reached, IsNew}
use ampered.Logind.Saved.{SavedState, ModeFile}

-- What `listen` returns: a socket, another instance, or any other failure.
pub data Listened : Type 0 where
  bound : Server → Listened
  already_running : Listened
  failed : Listened

-- The server, and whether the daemon runs without it; none if there is another instance.
unfoldable pub server_of : Listened → Option (Server × Bool)
unfolding Server.detached
server_of (Listened.bound server) = some (server, false)
server_of Listened.already_running = none
server_of Listened.failed = some (Server.detached, true)

-- The power at the start, and whether it could be read.
unfoldable pub first_power : Option PowerSnapshot → PowerSnapshot × Bool
first_power none = (on_ac, false)
first_power (some snapshot) = (snapshot, true)

abbrev entry_if : Bool → String → List String
entry_if test entry = if test then entry ∷ [] else []

degraded_logind : Option LogindHandle → List String
degraded_logind none = "logind" ∷ []
degraded_logind (some handle) = entry_if (not handle.hibernate_available) "hibernate"

-- `is_some_and(LogindHandle::hibernate_available)`.
unfoldable pub can_hibernate : Option LogindHandle → Bool
can_hibernate none = false
can_hibernate (some handle) = handle.hibernate_available

module _ {R : Type 0} where
  -- What is missing: `conflicts` are the power managers that run beside the daemon.
  unfoldable pub degraded_at_start :
      List String
      → Bool
      → Controller
      → Option LogindHandle
      → Option R
      → Config
      → World R
      → List String
  unfolding is_available degraded_logind check_dirs
  degraded_at_start conflicts ipc_failed backlight logind rtc config w =
      conflicts
      ++ (entry_if ipc_failed "ipc"
          ++ (entry_if (not (is_available backlight)) "backlight"
              ++ (degraded_logind logind
                  ++ (entry_if (config.server.enabled && not (is_some rtc)) "rtc"
                      ++ check_dirs w.dirs config.server.enabled))))

  -- The daemon as `run` puts it together.
  unfoldable pub assemble :
      Config
      → List String
      → Server × Bool
      → Option LogindHandle
      → Option PowerSnapshot
      → ModeFile
      → Notifier
      → World R
      → Daemon R
  unfolding Controller.new Link.new Table.new Planner.new rtc_for uses_logind first_power
      degraded_at_start
  assemble config conflicts (server, ipc_failed) logind power mode_file notifier w =
      let backlight = Controller.new config.backlight w.device in
      let rtc = rtc_for config w in
      let (initial, readable) = first_power power in
      record {
        config = config;
        server = server;
        timers = Table.new;
        applied = [];
        hooks = [];
        backlight = backlight;
        agent = Link.new config.display;
        logind = logind;
        saved = record {
          state = "";
          mode = "";
          reason = "";
          scheduled_wake = none;
          saved_at = none;
        };
        mode_file = mode_file;
        supply = record {
          refreshes = [];
          previous = initial;
          latest = initial;
          readable = readable;
        };
        fallback = record {
          enabled = uses_logind config.idle;
          compositor = false;
          sleep_after = none;
        };
        rtc = rtc;
        planner = Planner.new;
        notifier = notifier;
        last_status = "";
        degraded = degraded_at_start conflicts ipc_failed backlight logind rtc config w;
      }

-- What the world has when the daemon is started.
pub record Found (R : Type 0) : Type 0 where
  pub listened : Listened
  pub conflicts : List String
  pub logind : Option LogindHandle
  pub power : Option PowerSnapshot
  pub mode_file : ModeFile
  pub saved : Option SavedState
  pub notifier : Notifier
  pub world : World R

module _ {R : Type 0} (o : Outside R) where
  -- systemd is told that the daemon is ready, and in which state.
  announced : Engine → Daemon R → Daemon R
  unfolding remember notify report
  announced e d =
      let d' = remember o.rfc3339 e d in
      report e (record d' { notifier = notify "READY=1" d'.notifier })

  launched : ℕ → (ℕ → World R) → Config → Found R → Option (Server × Bool) → Option (Drained R)
  unfolding assemble announced can_hibernate first_power
  launched fuel worlds config f none = none
  launched fuel worlds config f (some server) =
      let initial = (first_power f.power).0 in
      let ((e, commands), mode_file) =
        boot o.humantime config initial (can_hibernate f.logind) f.mode_file f.world.writable
          f.saved in
      let d = assemble config f.conflicts server f.logind f.power mode_file f.notifier f.world in
      some (drain o fuel worlds 0 commands (announced e d) e)

  -- `run` up to the first event; none where another instance has the socket.
  unfoldable pub launch : ℕ → (ℕ → World R) → Config → Found R → Option (Drained R)
  unfolding launched server_of
  launch fuel worlds config f = launched fuel worlds config f (server_of f.listened)

  assemble-IsNew :
      (config : Config) (conflicts : List String) (server : Server × Bool)
      (logind : Option LogindHandle) (power : Option PowerSnapshot) (mode_file : ModeFile)
      (notifier : Notifier) (w : World R)
      → IsNew o (assemble config conflicts server logind power mode_file notifier w)
  unfolding assemble
  assemble-IsNew config conflicts server logind power mode_file notifier w = record {
    no_timer = refl;
    no_alarm = refl;
    display = config.display;
    unlinked = refl;
  }

  announced-IsNew : (e : Engine) (d : Daemon R) → IsNew o d → IsNew o (announced e d)
  unfolding announced remember
  announced-IsNew e d n =
      let d' = remember o.rfc3339 e d in
      let told : Daemon R = record d' { notifier = notify "READY=1" d'.notifier } in
      let f = report-frame e told in
      let timers : (report e told).timers ≡ d.timers = cc in
      let planner : (report e told).planner ≡ d.planner = cc in
      let agent : (report e told).agent ≡ d.agent = cc in
      record {
        no_timer = ap (λ t. t.running) timers ∙ n.no_timer;
        no_alarm = ap (λ p. p.alarm) planner ∙ n.no_alarm;
        display = n.display;
        unlinked = agent ∙ n.unlinked;
      }

  launched-Reached :
      (fuel : ℕ) (worlds : ℕ → World R) (config : Config) (f : Found R)
      (server : Option (Server × Bool)) (d : Daemon R) (e : Engine)
      → launched fuel worlds config f server ≡ some (Drained.idle d e)
      → Reached o d e
  unfolding launched
  launched-Reached fuel worlds config f none d e h = absurd (cc)
  launched-Reached fuel worlds config f (some server) d e h =
      let initial = (first_power f.power).0 in
      let b =
        boot o.humantime config initial (can_hibernate f.logind) f.mode_file f.world.writable
          f.saved in
      let start = assemble config f.conflicts server f.logind f.power b.1 f.notifier f.world in
      let opened : Daemon R = announced b.0.0 start in
      let done : drain o fuel worlds 0 b.0.1 opened b.0.0 ≡ Drained.idle d e = cc in
      Reached.started config initial (can_hibernate f.logind) f.mode_file f.world.writable f.saved
        fuel worlds
        (announced-IsNew b.0.0 start
          (assemble-IsNew config f.conflicts server f.logind f.power b.1 f.notifier f.world))
        done

  -- The daemon that `run` starts waits for its first event as the theorems on its life want it.
  pub launch-Reached :
      (fuel : ℕ) (worlds : ℕ → World R) (config : Config) (f : Found R) (d : Daemon R) (e : Engine)
      → launch fuel worlds config f ≡ some (Drained.idle d e)
      → Reached o d e
  unfolding launch
  launch-Reached fuel worlds config f d e h =
      launched-Reached fuel worlds config f (server_of f.listened) d e h
