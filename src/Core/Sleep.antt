-- ===== src/Core/Sleep.antt =====
-- Asking for a sleep: inhibitors, the retry timer and the request (src/core.rs).
use ampered.Prelude.{
  Bool, true, false, not, ◌&&◌, List, [], ◌∷◌, ◌++◌, Option, none, some, String, map, if◌then◌else◌,
  concat, decimal,
}
use ampered.Config.Durations.{is_zero}
use ampered.Ipc.{is_idle, is_sleep}
use ampered.Core.Types.{State, Inhibit, inhibitor_text, TimerId, Command, Engine, Outcome}

inhibit_text : Inhibit → String
unfolding concat decimal
inhibit_text i = concat ("ampered#" ∷ (decimal i.id ∷ (": " ∷ (i.why ∷ []))))

sleep_inhibits : List Inhibit → List String
unfolding inhibit_text
sleep_inhibits [] = []
sleep_inhibits (i ∷ rest) =
    if is_sleep i.what then inhibit_text i ∷ sleep_inhibits rest else sleep_inhibits rest

-- Inhibitors that stand between us and a suspend right now.
unfoldable pub sleep_blockers : Engine → List String
unfolding sleep_inhibits inhibitor_text
sleep_blockers e =
    if not e.config.sleep.respect_inhibitors
    then []
    else map inhibitor_text e.external ++ sleep_inhibits e.inhibits

abbrev pub is_blocked : List String → Bool
is_blocked [] = false
is_blocked (blocker ∷ rest) = true

unfoldable pub find_idle : List Inhibit → Option Inhibit
find_idle [] = none
find_idle (i ∷ rest) = if is_idle i.what then some i else find_idle rest

unfoldable pub idle_inhibit : Engine → Option Inhibit
unfolding find_idle
idle_inhibit e = find_idle e.inhibits

unfoldable pub arm_sleep_retry : Engine → Outcome
arm_sleep_retry e = if is_zero sleep_retry then (e, []) else (
  record e { pending_sleep = true },
  Command.start_timer TimerId.sleep_retry sleep_retry ∷ [],
)
  where
    open e.config.sleep use {sleep_retry}

unfoldable pub cancel_pending_sleep : Engine → Outcome
cancel_pending_sleep e = (
  record e { pending_sleep = false },
  if e.pending_sleep then Command.cancel_timer TimerId.sleep_retry ∷ [] else [],
)

-- `arm_retry` distinguishes an idle-driven attempt from an explicit one.
unfoldable pub request_sleep : Bool → Bool → Engine → Outcome
unfolding arm_sleep_retry
request_sleep force arm_retry e =
    if not force && is_blocked (sleep_blockers e)
    then if not arm_retry then (e, []) else arm_sleep_retry e
    else (
      record e { suspend_from = e.state; state = State.suspending; pending_sleep = false },
      Command.suspend e.config.sleep.method force ∷ [],
    )
