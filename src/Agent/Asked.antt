-- ===== src/Agent/Asked.antt =====
-- The requests that the watcher's handle makes over all connections (src/idle.rs).
use ampered.Prelude.{◌≡◌, refl, List, [], ◌∷◌, ◌++◌, Option, none, some, ap, ◌∙◌, sym}
use ampered.Core.Types.{Event, Stages}
use ampered.Agent.Screen.{Request}
use ampered.Agent.Reconnect.{
  dispatch_all, Turn, Session, requested, turn, turns, opened, Attempt, session, Reconnect,
  reconnect, drain_requests,
}

-- What the handle asked for while a connection stood.
abbrev to_list : Option Request → List Request
to_list none = []
to_list (some r) = r ∷ []

abbrev asked_in : List Turn → List Request
asked_in [] = []
asked_in (t ∷ rest) = to_list t.next ++ asked_in rest

abbrev pub asked : Attempt → List Request
asked Attempt.refused = []
asked (Attempt.served first during last) = asked_in during

-- All requests ever, in their order.
abbrev pub all_asked : List (List Request × Attempt) → List Request
all_asked [] = []
all_asked ((meanwhile, a) ∷ rest) = meanwhile ++ (asked a ++ all_asked rest)

pub drain_requests-++ :
    (past bs : List Request) (stages : Stages)
    → drain_requests (past ++ bs) stages ≡ drain_requests bs (drain_requests past stages)
unfolding drain_requests
drain_requests-++ [] bs stages = refl
drain_requests-++ (Request.stages update ∷ past) bs stages = drain_requests-++ past bs update
drain_requests-++ (Request.screen on ∷ past) bs stages = drain_requests-++ past bs stages

requested-stages :
    (r : Option Request) (s : Session)
    → (requested r s).stages ≡ drain_requests (to_list r) s.stages
unfolding requested drain_requests
requested-stages none s = refl
requested-stages (some (Request.stages update)) s = refl
requested-stages (some (Request.screen on)) s = refl

turn-stages :
    (t : Turn) (s : Session) → (turn t s).stages ≡ drain_requests (to_list t.next) s.stages
unfolding turn
turn-stages t s =
    let w = dispatch_all t.pending s.watcher in
    requested-stages t.next (record s {
      watcher = record w { outgoing = [] };
      output_power = w.power_manager;
      events = s.events ++ w.outgoing;
    })

turns-stages :
    (ts : List Turn) (s : Session) → (turns ts s).stages ≡ drain_requests (asked_in ts) s.stages
unfolding turns drain_requests
turns-stages [] s = refl
turns-stages (t ∷ rest) s =
    turns-stages rest (turn t s)
    ∙ (ap (drain_requests (asked_in rest)) (turn-stages t s)
        ∙ sym (drain_requests-++ (to_list t.next) (asked_in rest) s.stages))

session-stages :
    (a : Attempt) (stages : Stages) (events : List Event)
    → (session a stages events).0.stages ≡ drain_requests (asked a) stages
unfolding session opened drain_requests
session-stages Attempt.refused stages events = refl
session-stages (Attempt.served first during last) stages events =
    turns-stages during (opened first stages events)

pub reconnect-stages :
    (meanwhile : List Request) (a : Attempt) (r : Reconnect)
    → (reconnect meanwhile a r).stages
      ≡ drain_requests (asked a) (drain_requests meanwhile r.stages)
unfolding reconnect
reconnect-stages meanwhile a r = session-stages a (drain_requests meanwhile r.stages) r.events
