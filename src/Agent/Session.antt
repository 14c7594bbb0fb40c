-- ===== src/Agent/Session.antt =====
-- The agent's end of the stream (src/bin/ampered-agent.rs, with `parse_stages` of src/agent.rs). What is
-- written to the daemon is a list; a write that fails ends the connection.
use ampered.Prelude.{Bool, false, List, [], ◌∷◌, ◌++◌, Option, none, some, String, if◌then◌else◌}
use ampered.Config.Durations.{Duration, parse_duration, is_zero}
use ampered.Core.Types.{Event, Stages}
use ampered.Agent.Link.{AgentOp, AgentEvent}
use ampered.Agent.Screen.{Request, IdleHandle, request, Screen, new_screen, is_available, set}

-- `"0"` and anything that is no duration both mean that the stage is disabled.
abbrev pub enabled : Option Duration → Option Duration
enabled none = none
enabled (some d) = if is_zero d then none else some d

unfoldable pub parse_stages : (String → Option Duration) → String → String → String → Stages
parse_stages parse dim screen_off sleep = record {
  dim = enabled (parse_duration parse dim);
  screen_off = enabled (parse_duration parse screen_off);
  sleep = enabled (parse_duration parse sleep);
}

pub record Agent : Type 0 where
  pub idle : IdleHandle
  pub display : Option Screen
  pub backend_connected : Bool

-- `BACKEND` of src/idle.rs.
abbrev pub backend_name : String
backend_name = "ext-idle-notify"

unfoldable pub can_switch : IdleHandle → Option Screen → Bool
unfolding is_available
can_switch idle none = false
can_switch idle (some s) = is_available idle s

unfoldable pub report_display : Agent → List AgentEvent
unfolding can_switch
report_display a = AgentEvent.display (can_switch a.idle a.display) ∷ []

-- The first words on a connection, and the display with them.
unfoldable pub report_backend : Agent → List AgentEvent
report_backend a = AgentEvent.backend backend_name a.backend_connected ∷ report_display a

unfoldable pub forward : Event → Agent → Agent × List AgentEvent
forward (Event.idle stage) a = (a, AgentEvent.idle stage ∷ [])
forward Event.activity a = (a, AgentEvent.activity ∷ [])
forward (Event.idle_backend_changed connected) a =
    let a' : Agent = record a { backend_connected = connected } in
    (a', report_display a' ++ AgentEvent.backend backend_name connected ∷ [])
forward _ a = (a, [])

-- A request before the display section is dropped.
unfoldable pub set_display_screen : (String → Bool) → Bool → Option Screen → Agent → Agent
unfolding set
set_display_screen run on none a = a
set_display_screen run on (some s) a =
    let (s', (idle, _)) = set run on s a.idle in record a { display = some s'; idle = idle }

-- `Agent::apply`.
unfoldable pub apply :
    (String → Option Duration) → (String → Bool) → AgentOp → Agent → Agent × List AgentEvent
unfolding request parse_stages set_display_screen
apply parse run (AgentOp.display config) a =
    let a' : Agent = record a { display = some (new_screen config) } in (a', report_display a')
apply parse run (AgentOp.stages dim screen_off sleep) a = (
  record a { idle = request (Request.stages (parse_stages parse dim screen_off sleep)) a.idle },
  [],
)
apply parse run (AgentOp.screen on) a = (set_display_screen run on a.display a, [])

-- What reaches the agent on a connection: an operation of the daemon or an event of the watcher; between
-- them the watcher may store the flag of the output power.
pub data Input : Type 0 where
  op : AgentOp → Input
  watched : Event → Input
  power : Bool → Input

unfoldable pub take_input :
    (String → Option Duration) → (String → Bool) → Input → Agent → Agent × List AgentEvent
unfolding apply forward
take_input parse run (Input.op o) a = apply parse run o a
take_input parse run (Input.watched event) a = forward event a
take_input parse run (Input.power available) a =
    (record a { idle = record a.idle { output_power = available } }, [])

unfoldable pub take_all :
    (String → Option Duration) → (String → Bool) → List Input → Agent → Agent × List AgentEvent
unfolding take_input
take_all parse run [] a = (a, [])
take_all parse run (i ∷ rest) a =
    let (a', said) = take_input parse run i a in
    let (a'', later) = take_all parse run rest a' in (a'', said ++ later)

-- `Agent::serve`, up to the end of the stream.
unfoldable pub serve :
    (String → Option Duration) → (String → Bool) → List Input → Agent → Agent × List AgentEvent
unfolding take_all report_backend
serve parse run inputs a =
    let (a', said) = take_all parse run inputs a in (a', report_backend a ++ said)

-- The events that come while there is no connection cannot be delivered.
unfoldable pub drain_events : List Event → Agent → Agent
drain_events [] a = a
drain_events (Event.idle_backend_changed connected ∷ rest) a =
    drain_events rest (record a { backend_connected = connected })
drain_events (_ ∷ rest) a = drain_events rest a
