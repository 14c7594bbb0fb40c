-- ===== src/Agent/Link.antt =====
-- `AgentLink` of src/agent.rs. The channel to an agent is the list of the operations that were sent
-- on it and that the agent has not lost; dropping the sender closes it. The lock of the shared state
-- makes each operation one step.
use ampered.Prelude.{
  ℕ, Bool, true, false, ◌&&◌, List, [], ◌∷◌, ◌++◌, Option, none, some, String, str_eq,
  if◌then◌else◌, ◌==◌, is_some,
}
use ampered.Config.Durations.{Duration, format_duration}
use ampered.Config.Sections.{Display, DisplayBackend}
use ampered.Core.Types.{Stage, Stages, no_stages, u64_add}

-- Daemon to agent.
pub data AgentOp : Type 0 where
  display : Display → AgentOp
  stages : String → String → String → AgentOp
  screen : Bool → AgentOp

-- Agent to daemon.
pub data AgentEvent : Type 0 where
  idle : Stage → AgentEvent
  activity : AgentEvent
  backend : String → Bool → AgentEvent
  display : Bool → AgentEvent

abbrev pub AgentId : Type 0
AgentId = ℕ

pub record Stream : Type 0 where
  pub id : AgentId
  pub sent : List AgentOp

pub record AgentLink : Type 0 where
  pub stream : Option Stream
  pub next_id : AgentId  -- u64
  pub display : Display
  pub stages : Stages
  pub backend : String
  pub backend_connected : Bool
  pub display_available : Bool

abbrev pub or_zero : Option Duration → Duration
or_zero none = 0
or_zero (some d) = d

-- `AgentOp::stages`.
unfoldable pub stages_op : (Duration → String) → Stages → AgentOp
stages_op humantime s =
    AgentOp.stages (format_duration humantime (or_zero s.dim))
      (format_duration humantime (or_zero s.screen_off))
      (format_duration humantime (or_zero s.sleep))

unfoldable pub new : Display → AgentLink
new config = record {
  stream = none;
  next_id = 1;
  display = config;
  stages = no_stages;
  backend = "agent";
  backend_connected = false;
  display_available = false;
}

unfoldable pub push : AgentOp → Option Stream → Option Stream
push op none = none
push op (some s) = some (record s { sent = s.sent ++ (op ∷ []) })

-- `send`: nothing happens without an agent.
unfoldable pub send : AgentOp → AgentLink → AgentLink
unfolding push
send op l = record l { stream = push op l.stream }

unfoldable pub replace_stages : (Duration → String) → Stages → AgentLink → AgentLink
replace_stages humantime s l = send (stages_op humantime s) (record l { stages = s })

unfoldable pub set_screen : Bool → AgentLink → AgentLink
set_screen on l = send (AgentOp.screen on) l

abbrev pub same_backend : DisplayBackend → DisplayBackend → Bool
same_backend DisplayBackend.wlr DisplayBackend.wlr = true
same_backend DisplayBackend.command DisplayBackend.command = true
same_backend DisplayBackend.nothing DisplayBackend.nothing = true
same_backend _ _ = false

abbrev pub same_command : Option String → Option String → Bool
same_command none none = true
same_command (some a) (some b) = str_eq a b
same_command _ _ = false

-- The derived `==` of `Display`.
unfoldable pub same_display : Display → Display → Bool
same_display a b =
    same_backend a.backend b.backend
    && same_command a.off_command b.off_command
    && same_command a.on_command b.on_command

-- A reloaded `[display]` section.
unfoldable pub set_display : Display → AgentLink → AgentLink
set_display d l =
    if same_display l.display d then l else send (AgentOp.display d) (record l { display = d })

unfoldable pub is_connected : AgentLink → Bool
is_connected l = is_some l.stream

-- `AgentLink::display_available`.
unfoldable pub can_blank : AgentLink → Bool
can_blank l = is_some l.stream && l.display_available

-- A new agent takes over; the stream before it is closed. The `[display]` section and the stages go
-- out first.
unfoldable pub register : (Duration → String) → AgentLink → AgentLink × AgentId
register humantime l =
    let l' : AgentLink = record l {
      stream = some (record { id = l.next_id; sent = [] });
      next_id = u64_add l.next_id 1;
      backend_connected = false;
      display_available = false;
    } in
    (send (stages_op humantime l'.stages) (send (AgentOp.display l'.display) l'), l.next_id)

unfoldable pub is_current : AgentId → Option Stream → Bool
is_current id none = false
is_current id (some s) = s.id == id

-- True if that stream was the current one.
unfoldable pub unregister : AgentId → AgentLink → AgentLink × Bool
unregister id l =
    if is_current id l.stream
    then (record l { stream = none; backend_connected = false; display_available = false }, true)
    else (l, false)

unfoldable pub noted : AgentEvent → AgentLink → AgentLink
noted (AgentEvent.backend name connected) l = record l {
  backend = name;
  backend_connected = connected;
}
noted (AgentEvent.display available) l = record l { display_available = available }
noted _ l = l

-- What the agent says of itself, if it is the current one.
unfoldable pub note : AgentId → AgentEvent → AgentLink → AgentLink
unfolding noted
note id event l = if is_current id l.stream then noted event l else l
