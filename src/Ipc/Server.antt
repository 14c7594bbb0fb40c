-- ===== src/Ipc/Server.antt =====
-- The server of src/ipc.rs as the daemon and a connection see it. A channel that waits for an answer is
-- the number of its request; the answers that were sent on such channels, and the lines that were
-- broadcast, are lists. `serde_json` is a parameter.
use ampered.Prelude.{
  Bool, true, false, List, [], ◌∷◌, ◌++◌, Option, none, some, String, if◌then◌else◌, ◌==◌, concat,
  trim, is_blank,
}
use ampered.Ipc.{RequestId, Request, Response, StateEvent}
use ampered.Core.Types.{Event, u64_add}
use ampered.Agent.Link.{AgentEvent}

pub record Server : Type 0 where
  pub pending : List RequestId
  pub delivered : List (RequestId × Response)
  pub broadcasts : List StateEvent
  pub next_id : RequestId  -- u64
  pub socket : Option String

-- `Server::detached`: no socket, nobody waiting.
unfoldable pub detached : Server
detached = record { pending = []; delivered = []; broadcasts = []; next_id = 1; socket = none }

unfoldable pub waits : RequestId → List RequestId → Bool
waits id [] = false
waits id (i ∷ rest) = if i == id then true else waits id rest

unfoldable pub forget : RequestId → List RequestId → List RequestId
forget id [] = []
forget id (i ∷ rest) = let others = forget id rest in if i == id then others else i ∷ others

-- `Server::reply`: a client that has gone is no error.
unfoldable pub reply : RequestId → Response → Server → Server
reply id response s =
    if waits id s.pending
    then record s { pending = forget id s.pending; delivered = s.delivered ++ (id, response) ∷ [] }
    else s

unfoldable pub broadcast : StateEvent → Server → Server
broadcast event s = record s { broadcasts = s.broadcasts ++ event ∷ [] }

unfoldable pub take_id : Server → Server × RequestId
take_id s = (record s { next_id = u64_add s.next_id 1 }, s.next_id)

-- The wire form of a response: `to_value` stands for the JSON of a status or of the modes, and
-- `id_value` for that of a number.
pub record Wire (V : Type 0) : Type 0 where
  pub ok : Bool
  pub data_ : Option V
  pub error : Option String

module _ {V : Type 0} (to_value : Response → V) where
  unfoldable pub to_wire : Response → Wire V
  to_wire Response.ok = record { ok = true; data_ = none; error = none }
  to_wire (Response.error message) = record { ok = false; data_ = none; error = some message }
  to_wire response = record { ok = true; data_ = some (to_value response); error = none }

-- What a connection does with a line: it goes on, with the responses it wrote and the event it sent;
-- it becomes a subscriber or an agent's stream; or it ends.
pub data Turn : Type 0 where
  goes_on : List Response → Option Event → Turn
  subscribes : Turn
  serves_agent : Turn
  ends : Response → Turn

-- `serde_json::from_str` of a line: a request, or what is wrong with it.
pub data Parsed : Type 0 where
  parsed : Request → Parsed
  bad : String → Parsed

-- A request for the engine: it takes a number and waits. `open` is false once nobody receives events.
unfoldable pub submit : Bool → Request → Server → Server × Turn
unfolding take_id
submit open_ request s =
    let (s', id) = take_id s in
    if open_
    then (record s' { pending = id ∷ s'.pending }, Turn.goes_on [] (some (Event.ipc id request)))
    else (s', Turn.ends (Response.error "daemon is shutting down"))

parsed_line : Bool → Parsed → Server → Server × Turn
parsed_line open_ (Parsed.bad err) s =
    (s, Turn.goes_on (Response.error (concat ("bad request: " ∷ (err ∷ []))) ∷ []) none)
parsed_line open_ (Parsed.parsed Request.subscribe) s = (s, Turn.subscribes)
parsed_line open_ (Parsed.parsed Request.agent) s = (s, Turn.serves_agent)
parsed_line open_ (Parsed.parsed request) s = submit open_ request s

-- One line of `serve_connection`.
unfoldable pub serve_line : (String → Parsed) → Bool → String → Server → Server × Turn
unfolding parsed_line trim
serve_line from_str open_ line s =
    if is_blank (trim line) then (s, Turn.goes_on [] none) else parsed_line open_ (from_str line) s

-- The event that `serve_agent` makes of an agent's.
unfoldable pub engine_event : AgentEvent → Option Event
engine_event (AgentEvent.idle stage) = some (Event.idle stage)
engine_event AgentEvent.activity = some Event.activity
engine_event (AgentEvent.backend name connected) = some (Event.idle_backend_changed connected)
engine_event (AgentEvent.display available) = none

-- What `serve_agent` sends when its stream is over, if it was the current one.
unfoldable pub lost_events : Bool → List Event
lost_events current =
    if current then Event.idle_backend_changed false ∷ (Event.activity ∷ []) else []
