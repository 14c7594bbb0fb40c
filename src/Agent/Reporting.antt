-- ===== src/Agent/Reporting.antt =====
-- What the daemon knows of its agent (src/bin/ampered-agent.rs at one end, src/agent.rs at the other).
use ampered.Prelude.{
  ◌≡◌, refl, arith, Bool, true, false, List, [], ◌∷◌, ◌++◌, Option, none, some, String, str_eq,
  if◌then◌else◌, ap, ◌∙◌, sym,
}
use ampered.Config.Durations.{Duration}
use ampered.Core.Types.{Event}
use ampered.Agent.Link.{AgentOp, AgentEvent, AgentId, AgentLink, note, noted, is_current}
use ampered.Agent.Screen.{
  new_screen, Screen, IdleHandle, Switched, Backend, set, switch, stand_in, run_helper, is_last,
  request, is_available,
}
use ampered.Agent.Session.{
  Agent, Input, can_switch, report_display, report_backend, forward, set_display_screen, apply,
  take_input, take_all, serve, backend_name,
}

-- The daemon notes the events of a stream in their order.
abbrev pub note_all : AgentId → List AgentEvent → AgentLink → AgentLink
note_all id [] l = l
note_all id (e ∷ rest) l = note_all id rest (note id e l)

-- Whether the flag of the output power has changed since the agent last spoke of the display.
abbrev pub stale_after : Bool → Input → Bool
stale_after stale (Input.power available) = true
stale_after stale (Input.op (AgentOp.display config)) = false
stale_after stale (Input.watched (Event.idle_backend_changed connected)) = false
stale_after stale _ = stale

abbrev pub is_stale : Bool → List Input → Bool
is_stale stale [] = stale
is_stale stale (i ∷ rest) = is_stale (stale_after stale i) rest

pub record Knows (id : AgentId) (stale : Bool) (l : AgentLink) (a : Agent) : Type 0 where
  pub current : is_current id l.stream ≡ true
  pub backend : l.backend_connected ≡ a.backend_connected
  pub display : stale ≡ false → l.display_available ≡ can_switch a.idle a.display

note-current :
    (id : AgentId) (e : AgentEvent) (l : AgentLink)
    → is_current id l.stream ≡ true
    → note id e l ≡ noted e l
unfolding note
note-current id e l h = ap (λ t. if t then noted e l else l) h

note_all-++ :
    (id : AgentId) (es fs : List AgentEvent) (l : AgentLink)
    → note_all id (es ++ fs) l ≡ note_all id fs (note_all id es l)
note_all-++ id [] fs l = refl
note_all-++ id (e ∷ es) fs l = note_all-++ id es fs (note id e l)

display-Knows :
    (id : AgentId) (stale : Bool) (l : AgentLink) (a : Agent)
    → is_current id l.stream ≡ true
    → l.backend_connected ≡ a.backend_connected
    → Knows id stale (note_all id (report_display a) l) a
unfolding report_display noted
display-Knows id stale l a h same =
    rw (note-current id (AgentEvent.display (can_switch a.idle a.display)) l h)
      (record { current = h; backend = same; display = λ _. refl })

-- A request to the screen leaves what the screen can do as it is.
abbrev Keeps : Screen → IdleHandle → Switched → Type 0
Keeps s idle (s', (idle', ran)) =
    (s'.backend ≡ s.backend) × (idle'.output_power ≡ idle.output_power)

either-Keeps :
    (s : Screen) (idle : IdleHandle) (test : Bool) (a b : Switched)
    → Keeps s idle a
    → Keeps s idle b
    → Keeps s idle (if test then a else b)
either-Keeps s idle true a b ha hb = ha
either-Keeps s idle false a b ha hb = hb

stand_in-Keeps :
    (run : String → Bool) (on : Bool) (fallback : Option (String × String)) (s : Screen)
    (idle : IdleHandle)
    → Keeps s idle (stand_in run on fallback s idle)
unfolding stand_in run_helper
stand_in-Keeps run on none s idle = (refl, refl)
stand_in-Keeps run on (some (off, on_command)) s idle = (refl, refl)

switch-Keeps :
    (run : String → Bool) (on : Bool) (b : Backend) (s : Screen) (idle : IdleHandle)
    → Keeps s idle (switch run on b s idle)
unfolding switch request run_helper
switch-Keeps run on (Backend.wlr fallback) s idle =
    either-Keeps s idle idle.output_power _ _ (refl, refl) (stand_in-Keeps run on fallback s idle)
switch-Keeps run on (Backend.command off on_command) s idle =
    either-Keeps s idle (str_eq (if on then on_command else off) "") _ _ (refl, refl) (refl, refl)
switch-Keeps run on Backend.nothing s idle = (refl, refl)

set-Keeps :
    (run : String → Bool) (on : Bool) (s : Screen) (idle : IdleHandle)
    → Keeps s idle (set run on s idle)
unfolding set
set-Keeps run on s idle =
    either-Keeps s idle (is_last on s.last) _ _ (refl, refl) (switch-Keeps run on s.backend s idle)

screen-keeps :
    (run : String → Bool) (on : Bool) (d : Option Screen) (a : Agent)
    → a.display ≡ d
    → let a' = set_display_screen run on d a in
      (a'.backend_connected ≡ a.backend_connected)
      × (can_switch a'.idle a'.display ≡ can_switch a.idle a.display)
unfolding set_display_screen can_switch is_available
screen-keeps run on none a h = (refl, refl)
screen-keeps run on (some s) a h =
    let kept = set-Keeps run on s a.idle in (refl, rw h (rw kept.0 (rw kept.1 refl)))

forward-Knows :
    (id : AgentId) (stale : Bool) (event : Event) (l : AgentLink) (a : Agent)
    → Knows id stale l a
    → Knows id
        (stale_after stale (Input.watched event))
        (note_all id (forward event a).1 l)
        (forward event a).0
unfolding forward noted report_display
forward-Knows id stale (Event.idle stage) l a k =
    rw (note-current id (AgentEvent.idle stage) l k.current) k
forward-Knows id stale (Event.idle_backend_changed connected) l a k =
    let a' : Agent = record a { backend_connected = connected } in
    let told = AgentEvent.display (can_switch a'.idle a'.display) in
    let b : AgentLink = record l { display_available = can_switch a'.idle a'.display } in
    rw (note-current id told l k.current) (
      rw (note-current id (AgentEvent.backend backend_name connected) b k.current)
        (record { current = k.current; backend = refl; display = λ _. refl }))
forward-Knows id stale Event.activity l a k = rw (note-current id AgentEvent.activity l k.current) k
forward-Knows id stale event l a k = k

apply-Knows :
    (parse : String → Option Duration) (run : String → Bool) (id : AgentId) (stale : Bool)
    (o : AgentOp) (l : AgentLink) (a : Agent)
    → Knows id stale l a
    → Knows id
        (stale_after stale (Input.op o))
        (note_all id (apply parse run o a).1 l)
        (apply parse run o a).0
unfolding apply can_switch
apply-Knows parse run id stale (AgentOp.display config) l a k =
    display-Knows id false l (record a { display = some (new_screen config) }) k.current k.backend
apply-Knows parse run id stale (AgentOp.stages dim screen_off sleep) l a k = record {
  current = k.current;
  backend = k.backend;
  display = k.display;
}
apply-Knows parse run id stale (AgentOp.screen on) l a k =
    let kept = screen-keeps run on a.display a refl in
    record {
      current = k.current;
      backend = k.backend ∙ sym kept.0;
      display = λ fresh. k.display fresh ∙ sym kept.1;
    }

take_input-Knows :
    (parse : String → Option Duration) (run : String → Bool) (id : AgentId) (stale : Bool)
    (i : Input) (l : AgentLink) (a : Agent)
    → Knows id stale l a
    → Knows id
        (stale_after stale i)
        (note_all id (take_input parse run i a).1 l)
        (take_input parse run i a).0
unfolding take_input
take_input-Knows parse run id stale (Input.op o) l a k = apply-Knows parse run id stale o l a k
take_input-Knows parse run id stale (Input.watched event) l a k = forward-Knows id stale event l a k
take_input-Knows parse run id stale (Input.power available) l a k = record {
  current = k.current;
  backend = k.backend;
  display = λ fresh. ground arith;
}

take_all-Knows :
    (parse : String → Option Duration) (run : String → Bool) (id : AgentId) (stale : Bool)
    (inputs : List Input) (l : AgentLink) (a : Agent)
    → Knows id stale l a
    → Knows id
        (is_stale stale inputs)
        (note_all id (take_all parse run inputs a).1 l)
        (take_all parse run inputs a).0
unfolding take_all
take_all-Knows parse run id stale [] l a k = k
take_all-Knows parse run id stale (i ∷ rest) l a k =
    let (a', said) = take_input parse run i a in
    let (a'', later) = take_all parse run rest a' in
    rw (note_all-++ id said later l) (
      take_all-Knows parse run id (stale_after stale i) rest (note_all id said l) a'
        (take_input-Knows parse run id stale i l a k))

report_backend-Knows :
    (id : AgentId) (l : AgentLink) (a : Agent)
    → is_current id l.stream ≡ true
    → Knows id false (note_all id (report_backend a) l) a
unfolding report_backend noted report_display
report_backend-Knows id l a h =
    rw (note-current id (AgentEvent.backend backend_name a.backend_connected) l h) (
      display-Knows id false
        (record l { backend = backend_name; backend_connected = a.backend_connected }) a h refl)

-- While a stream is the current one, whatever the daemon sends on it and the watcher reports, the daemon
-- knows whether the agent has its backend; and it knows whether the display can be switched unless the
-- flag of the output power changed after the agent last spoke of the display.
pub serve-Knows :
    (parse : String → Option Duration) (run : String → Bool) (id : AgentId) (inputs : List Input)
    (l : AgentLink) (a : Agent)
    → is_current id l.stream ≡ true
    → let (a', said) = serve parse run inputs a in
      Knows id (is_stale false inputs) (note_all id said l) a'
unfolding serve
serve-Knows parse run id inputs l a h =
    let (a', said) = take_all parse run inputs a in
    rw (note_all-++ id (report_backend a) said l) (
      take_all-Knows parse run id false inputs (note_all id (report_backend a) l) a
        (report_backend-Knows id l a h))
