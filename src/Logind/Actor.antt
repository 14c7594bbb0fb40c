-- ===== src/Logind/Actor.antt =====
-- The requests to logind and their executor (src/logind.rs). What the bus answers is a parameter, read
-- anew for every request; what is asked of the bus, and the events that are sent, are lists.
use ampered.Prelude.{
  ℕ, Bool, true, false, not, ◌&&◌, List, [], ◌∷◌, ◌++◌, Option, none, some, String, str_eq,
  if◌then◌else◌, ltb, length, any, split, trim, is_blank, ◌==◌,
}
use ampered.Config.Sections.{SleepMethod, needs_hibernate}
use ampered.Core.Types.{Event, Inhibitor}

pub data Request : Type 0 where
  sleep : SleepMethod → Bool → Bool → Request
  power_off : Request

-- The sending end: what waits in the channel, and whether the executor is gone.
pub record LogindHandle : Type 0 where
  pub requests : List Request
  pub closed : Bool
  pub hibernate_available : Bool

-- `mpsc::channel(4)`.
abbrev pub capacity : ℕ
capacity = 4

-- `usable`: better to sleep than to fail outright.
unfoldable pub usable : Bool → SleepMethod → SleepMethod
usable hibernate_available method =
    if needs_hibernate method && not hibernate_available then SleepMethod.suspend else method

-- `try_send`.
unfoldable pub try_send : Request → LogindHandle → LogindHandle × Bool
try_send request h =
    if ltb (length h.requests) capacity && not h.closed
    then (record h { requests = h.requests ++ (request ∷ []) }, true)
    else (h, false)

-- False means that the request never reached the bus.
unfoldable pub suspend : SleepMethod → Bool → Bool → LogindHandle → LogindHandle × Bool
unfolding usable try_send
suspend method force respect_inhibitors h =
    try_send (Request.sleep (usable h.hibernate_available method) force respect_inhibitors) h

-- `LogindHandle::power_off`.
unfoldable pub request_power_off : LogindHandle → LogindHandle
unfolding try_send
request_power_off h = (try_send Request.power_off h).0

-- `hibernate_available`: logind's answer to `CanHibernate`, and the text of `/sys/power/disk`.
unfoldable pub can_hibernate : Option String → Option String → Bool
unfolding trim
can_hibernate (some answer) (some modes) =
    str_eq answer "yes" && not (is_blank (trim modes)) && not (str_eq (trim modes) "[disabled]")
can_hibernate _ _ = false

-- An entry of `ListInhibitors`: what, who, why and mode.
pub data Listed : Type 0 where
  listed : String → String → String → String → Listed

-- What the bus answers: the inhibitors, and whether a call to sleep or to power off is accepted.
pub record Manager : Type 0 where
  pub inhibitors : Option (List Listed)
  pub accepts : SleepMethod → Bool
  pub accepts_power_off : Bool

-- Only the `block` mode counts, of those that name `sleep`.
unfoldable pub blocks_sleep : Listed → Bool
unfolding any split
blocks_sleep (Listed.listed what who why mode) =
    str_eq mode "block" && any (λ w. str_eq w "sleep") (split (λ c. c == b':') what)

abbrev pub inhibitor_of : Listed → Inhibitor
inhibitor_of (Listed.listed what who why mode) = record { what = what; who = who; why = why }

unfoldable pub blocking : List Listed → List Inhibitor
blocking [] = []
blocking (l ∷ rest) =
    let others = blocking rest in if blocks_sleep l then inhibitor_of l ∷ others else others

-- `blocking_inhibitors`; none where the bus does not answer.
unfoldable pub blocking_inhibitors : Option (List Listed) → List Inhibitor
blocking_inhibitors none = []
blocking_inhibitors (some list) = blocking list

-- What is asked of logind.
pub data Call : Type 0 where
  sleep : SleepMethod → Call
  power_off : Call

abbrev pub has_any : List Inhibitor → Bool
has_any [] = false
has_any (i ∷ rest) = true

ask : Manager → SleepMethod → List Call × List Event
ask manager method =
    (Call.sleep method ∷ [], if manager.accepts method then [] else Event.sleep_failed ∷ [])

-- One round of `executor`.
unfoldable pub serve : Manager → Request → List Call × List Event
unfolding ask
serve manager (Request.sleep method force respect_inhibitors) =
    let blockers = blocking_inhibitors manager.inhibitors in
    if not force && respect_inhibitors && has_any blockers
    then ([], Event.sleep_blocked blockers ∷ [])
    else ask manager method
serve manager Request.power_off = (Call.power_off ∷ [], [])

-- `executor`: the requests in their order, each with the answers of its moment.
unfoldable pub executor : List (Manager × Request) → List Call × List Event
executor [] = ([], [])
executor ((manager, request) ∷ rest) =
    let (calls, events) = serve manager request in
    let (later, more) = executor rest in (calls ++ later, events ++ more)
