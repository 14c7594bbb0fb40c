-- ===== src/Agent/Screen.antt =====
-- The agent's screen (src/display.rs, with `IdleHandle` of src/idle.rs). The channel to the watcher is the
-- list of what was sent on it, and the flag that the two share is a field of the handle. Running a
-- helper is the parameter `run`: whether the command succeeds.
use ampered.Prelude.{
  Bool, true, false, List, [], ◌∷◌, ◌++◌, Option, none, some, String, str_eq, if◌then◌else◌,
  is_some,
}
use ampered.Config.Sections.{Display, DisplayBackend}
use ampered.Core.Types.{Stages}

-- What the agent asks of the watcher.
pub data Request : Type 0 where
  stages : Stages → Request
  screen : Bool → Request

pub record IdleHandle : Type 0 where
  pub requests : List Request
  pub output_power : Bool

unfoldable pub request : Request → IdleHandle → IdleHandle
request r idle = record idle { requests = idle.requests ++ r ∷ [] }

pub data Backend : Type 0 where
  wlr : Option (String × String) → Backend
  command : String → String → Backend
  nothing : Backend

-- `Display` of src/display.rs.
pub record Screen : Type 0 where
  pub backend : Backend
  pub last : Option Bool
  pub warned : Bool

-- `Option::zip`.
abbrev pub zip : Option String → Option String → Option (String × String)
zip (some off) (some on) = some (off, on)
zip _ _ = none

abbrev pub or_empty : Option String → String
or_empty none = ""
or_empty (some text) = text

unfoldable pub backend_of : Display → DisplayBackend → Backend
backend_of d DisplayBackend.command =
    Backend.command (or_empty d.off_command) (or_empty d.on_command)
backend_of d DisplayBackend.nothing = Backend.nothing
backend_of d DisplayBackend.wlr = Backend.wlr (zip d.off_command d.on_command)

-- `Display::new`.
unfoldable pub new_screen : Display → Screen
unfolding backend_of
new_screen d = record { backend = backend_of d d.backend; last = none; warned = false }

unfoldable pub backend_available : Backend → Bool → Bool
backend_available (Backend.wlr fallback) output_power =
    if output_power then true else is_some fallback
backend_available (Backend.command off on) output_power = true
backend_available Backend.nothing output_power = true

-- `Display::is_available`.
unfoldable pub is_available : IdleHandle → Screen → Bool
unfolding backend_available
is_available idle s = backend_available s.backend idle.output_power

unfoldable pub is_last : Bool → Option Bool → Bool
is_last on none = false
is_last true (some last) = last
is_last false (some last) = if last then false else true

-- The commands that were run stand in the last component.
abbrev pub Switched : Type 0
Switched = Screen × (IdleHandle × List String)

abbrev pub latch : Bool → Screen → Screen
latch on s = record s { last = some on }

-- A helper that failed leaves the state of the screen unknown.
unfoldable pub run_helper : (String → Bool) → Bool → String → Screen → IdleHandle → Switched
run_helper run on helper s idle =
    (record s { last = if run helper then some on else none }, (idle, helper ∷ []))

-- `wlr` without the protocol.
unfoldable pub stand_in :
    (String → Bool) → Bool → Option (String × String) → Screen → IdleHandle → Switched
unfolding run_helper
stand_in run on (some (off, on_command)) s idle =
    run_helper run on (if on then on_command else off) s idle
stand_in run on none s idle = (record s { warned = true }, (idle, []))

unfoldable pub switch : (String → Bool) → Bool → Backend → Screen → IdleHandle → Switched
unfolding request stand_in run_helper
switch run on (Backend.wlr fallback) s idle =
    if idle.output_power
    then (record s { warned = false; last = some on }, (request (Request.screen on) idle, []))
    else stand_in run on fallback s idle
switch run on (Backend.command off on_command) s idle =
    let helper = if on then on_command else off in
    if str_eq helper "" then (latch on s, (idle, [])) else run_helper run on helper s idle
switch run on Backend.nothing s idle = (latch on s, (idle, []))

-- `Display::set`.
unfoldable pub set : (String → Bool) → Bool → Screen → IdleHandle → Switched
unfolding is_last switch
set run on s idle = if is_last on s.last then (s, (idle, [])) else switch run on s.backend s idle
