-- ===== src/Agent/Reconnect.antt =====
-- The connections of the agent to the compositor, one after the other (`session` and `reconnect_loop` of
-- src/idle.rs). What the compositor and the handle do to a connection is a list of turns of its loop.
use ampered.Prelude.{
  ℕ, ◌*◌, min, Bool, false, List, [], ◌∷◌, ◌++◌, Option, none, some, if◌then◌else◌,
}
use ampered.Config.Durations.{Duration, from_secs}
use ampered.Core.Types.{Event, Stage, Stages, no_stages}
use ampered.Agent.Screen.{Request}
use ampered.Agent.Watcher.{
  Watcher, Interface, connected, on_global, remove_output, on_idled, on_stage_resumed, on_failed,
  set_stages, set_screen,
}

-- A message of the compositor.
pub data Message : Type 0 where
  global : ℕ → Interface → Message
  global_remove : ℕ → Message
  idled : Stage → Message
  resumed : Stage → Message
  failed : ℕ → Message

unfoldable pub dispatch : Message → Watcher → Watcher
unfolding on_global remove_output on_idled on_stage_resumed on_failed
dispatch (Message.global name i) w = on_global name i w
dispatch (Message.global_remove name) w = remove_output name w
dispatch (Message.idled stage) w = on_idled stage w
dispatch (Message.resumed stage) w = on_stage_resumed stage w
dispatch (Message.failed name) w = on_failed name w

-- `dispatch_pending`.
unfoldable pub dispatch_all : List Message → Watcher → Watcher
unfolding dispatch
dispatch_all [] w = w
dispatch_all (m ∷ rest) w = dispatch_all rest (dispatch m w)

-- A turn of the loop: what is pending, and the request that comes next, or none when the socket is ready.
pub record Turn : Type 0 where
  pub pending : List Message
  pub next : Option Request

pub record Session : Type 0 where
  pub watcher : Watcher
  pub stages : Stages
  pub output_power : Bool
  pub events : List Event

unfoldable pub requested : Option Request → Session → Session
requested none s = s
requested (some (Request.stages update)) s = record s {
  stages = update;
  watcher = set_stages update s.watcher;
}
requested (some (Request.screen on)) s = record s { watcher = set_screen on s.watcher }

-- The flag is stored before the events that make the agent read it.
unfoldable pub turn : Turn → Session → Session
unfolding dispatch_all requested
turn t s =
    let w = dispatch_all t.pending s.watcher in
    requested t.next (record s {
      watcher = record w { outgoing = [] };
      output_power = w.power_manager;
      events = s.events ++ w.outgoing;
    })

unfoldable pub turns : List Turn → Session → Session
unfolding turn
turns [] s = s
turns (t ∷ rest) s = turns rest (turn t s)

-- The first round trip: without a notifier the agent hears of it.
unfoldable pub opened : List Message → Stages → List Event → Session
unfolding dispatch_all connected
opened first stages events =
    let w = dispatch_all first (connected stages) in
    record {
      watcher = w;
      stages = stages;
      output_power = w.power_manager;
      events = if w.notifier then events else events ++ Event.idle_backend_changed false ∷ [];
    }

-- How a connection goes: there is none, or the first round trip, the turns, and what was still
-- dispatched when the socket died.
pub data Attempt : Type 0 where
  refused : Attempt
  served : List Message → List Turn → List Message → Attempt

-- The second component: whether there was a live connection to mourn.
unfoldable pub session : Attempt → Stages → List Event → Session × Bool
unfolding opened turns dispatch_all
session Attempt.refused stages events = (
  record { watcher = connected stages; stages = stages; output_power = false; events = events },
  false,
)
session (Attempt.served first during last) stages events =
    let s = turns during (opened first stages events) in
    (s, (dispatch_all last s.watcher).announced)

abbrev pub reconnect_max_backoff : Duration
reconnect_max_backoff = from_secs 60

pub record Reconnect : Type 0 where
  pub stages : Stages
  pub backoff : Duration
  pub output_power : Bool
  pub events : List Event

unfoldable pub spawned : Reconnect
spawned = record { stages = no_stages; backoff = from_secs 1; output_power = false; events = [] }

-- Of the requests that came meanwhile the stages count.
unfoldable pub drain_requests : List Request → Stages → Stages
drain_requests [] stages = stages
drain_requests (Request.stages update ∷ rest) stages = drain_requests rest update
drain_requests (Request.screen on ∷ rest) stages = drain_requests rest stages

-- A turn of `reconnect_loop`, the sleep at its end included.
unfoldable pub reconnect : List Request → Attempt → Reconnect → Reconnect
unfolding drain_requests session
reconnect meanwhile attempt r =
    let (s, lost) = session attempt (drain_requests meanwhile r.stages) r.events in
    record {
      stages = s.stages;
      backoff = min ((if lost then from_secs 1 else r.backoff) * 2) reconnect_max_backoff;
      output_power = false;
      events =
          if lost
          then s.events ++ (Event.idle_backend_changed false ∷ (Event.activity ∷ []))
          else s.events;
    }
