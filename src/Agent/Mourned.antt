-- ===== src/Agent/Mourned.antt =====
-- What is left of a connection to the compositor that is gone (src/idle.rs).
use ampered.Prelude.{
  ◌≡◌, ◌≤◌, refl, arith, Bool, true, false, List, [], ◌∷◌, ◌++◌, Option, none, some, if◌then◌else◌,
  Bool-cases, inl, inr, ap, ◌∙◌, sym,
}
use ampered.Core.Types.{Event, Stages, no_stages}
use ampered.Agent.Screen.{Request}
use ampered.Agent.Watcher.{connected, set_screen, switch_all}
use ampered.Agent.Reconnect.{
  Message, dispatch_all, Turn, Session, requested, turn, turns, opened, Attempt, session, Reconnect,
  reconnect_max_backoff, spawned, reconnect, drain_requests,
}
use ampered.Agent.Asked.{asked, all_asked, drain_requests-++, reconnect-stages}
use ampered.Agent.Silent.{
  backend_after, backend_after-++, IsSilent, set_stages-IsSilent, either-IsSilent,
  dispatch_all-IsSilent,
}

Quiet : Session → Type 0
Quiet s = IsSilent (backend_after s.events false) s.watcher

requested-Quiet : (r : Option Request) (s : Session) → Quiet s → Quiet (requested r s)
unfolding Quiet requested set_screen
requested-Quiet none s q = q
requested-Quiet (some (Request.stages update)) s q =
    set_stages-IsSilent (backend_after s.events false) update s.watcher q
requested-Quiet (some (Request.screen on)) s q =
    let known = backend_after s.events false in
    either-IsSilent known s.watcher.power_manager
      (record s.watcher { outputs = switch_all on s.watcher.outputs }) s.watcher
      (record { before = q.before; quiet = q.quiet }) q

turn-Quiet : (t : Turn) (s : Session) → Quiet s → Quiet (turn t s)
unfolding Quiet turn
turn-Quiet t s q =
    let w = dispatch_all t.pending s.watcher in
    let q' = dispatch_all-IsSilent (backend_after s.events false) t.pending s.watcher q in
    let sent : Session = record s {
      watcher = record w { outgoing = [] };
      output_power = w.power_manager;
      events = s.events ++ w.outgoing;
    } in
    requested-Quiet t.next sent (record {
      before = λ h. backend_after-++ s.events w.outgoing false ∙ q'.quiet h;
      quiet = λ h. backend_after-++ s.events w.outgoing false ∙ q'.quiet h;
    })

turns-Quiet : (ts : List Turn) (s : Session) → Quiet s → Quiet (turns ts s)
unfolding turns
turns-Quiet [] s q = q
turns-Quiet (t ∷ rest) s q = turns-Quiet rest (turn t s) (turn-Quiet t s q)

opened-Quiet :
    (first : List Message) (stages : Stages) (events : List Event)
    → backend_after events false ≡ false
    → Quiet (opened first stages events)
unfolding Quiet opened connected
opened-Quiet first stages events h =
    let w = dispatch_all first (connected stages) in
    let fresh : IsSilent false (connected stages) = record {
      before = λ _. refl;
      quiet = λ _. refl;
    } in
    elim (Bool-cases w.notifier) [
      | inl there ↦ rw there (rw h (dispatch_all-IsSilent false first (connected stages) fresh))
      | inr gone ↦ rw gone (
          rw (backend_after-++ events (Event.idle_backend_changed false ∷ []) false)
            (dispatch_all-IsSilent false first (connected stages) fresh))
    ]

-- A connection that leaves nobody to mourn was never told of.
session-untold :
    (a : Attempt) (stages : Stages) (events : List Event)
    → backend_after events false ≡ false
    → (session a stages events).1 ≡ false
    → backend_after (session a stages events).0.events false ≡ false
unfolding session Quiet
session-untold Attempt.refused stages events h lost = h
session-untold (Attempt.served first during last) stages events h lost =
    let s = turns during (opened first stages events) in
    (dispatch_all-IsSilent (backend_after s.events false) last s.watcher (
        turns-Quiet during (opened first stages events)
          (opened-Quiet first stages events h))).before
      lost

mourned :
    (lost : Bool) (events : List Event)
    → (lost ≡ false → backend_after events false ≡ false)
    → backend_after
        (if lost
          then events ++ (Event.idle_backend_changed false ∷ (Event.activity ∷ []))
          else events)
        false
      ≡ false
mourned true events h =
    backend_after-++ events (Event.idle_backend_changed false ∷ (Event.activity ∷ [])) false
mourned false events h = h refl

reconnect-mourned :
    (meanwhile : List Request) (a : Attempt) (r : Reconnect)
    → backend_after r.events false ≡ false
    → backend_after (reconnect meanwhile a r).events false ≡ false
unfolding reconnect
reconnect-mourned meanwhile a r h =
    let (s, lost) = session a (drain_requests meanwhile r.stages) r.events in
    mourned lost s.events (session-untold a (drain_requests meanwhile r.stages) r.events h)

abbrev pub reconnects : List (List Request × Attempt) → Reconnect → Reconnect
reconnects [] r = r
reconnects ((meanwhile, a) ∷ rest) r = reconnects rest (reconnect meanwhile a r)

reconnects-keep :
    (attempts : List (List Request × Attempt)) (r : Reconnect)
    → backend_after r.events false ≡ false
    → r.backoff ≤ reconnect_max_backoff
    → (backend_after (reconnects attempts r).events false ≡ false)
      × ((reconnects attempts r).backoff ≤ reconnect_max_backoff)
unfolding reconnect
reconnects-keep [] r h b = (h, b)
reconnects-keep ((meanwhile, a) ∷ rest) r h b =
    reconnects-keep rest (reconnect meanwhile a r) (reconnect-mourned meanwhile a r h)
      (ground arith)

reconnects-stages :
    (attempts : List (List Request × Attempt)) (r : Reconnect)
    → (reconnects attempts r).stages ≡ drain_requests (all_asked attempts) r.stages
unfolding drain_requests
reconnects-stages [] r = refl
reconnects-stages ((meanwhile, a) ∷ rest) r =
    reconnects-stages rest (reconnect meanwhile a r)
    ∙ (ap (drain_requests (all_asked rest)) (reconnect-stages meanwhile a r)
        ∙ (sym (drain_requests-++ (asked a) (all_asked rest) (drain_requests meanwhile r.stages))
            ∙ sym (drain_requests-++ meanwhile (asked a ++ all_asked rest) r.stages)))

-- Between any two connections to the compositor, however those before went and wherever they broke off,
-- the last that the agent was told is that there is no idle backend, if it was told anything; the
-- wait for the next connection is a minute at most, and that connection gets the stages of the last such
-- request ever, or none if there was no such request.
pub reconnects-mourned :
    (attempts : List (List Request × Attempt))
    → let r = reconnects attempts spawned in
      (backend_after r.events false ≡ false)
      × ((r.backoff ≤ reconnect_max_backoff)
          × (r.stages ≡ drain_requests (all_asked attempts) no_stages))
unfolding spawned
reconnects-mourned attempts =
    let kept = reconnects-keep attempts spawned refl (omega arith) in
    (kept.0, (kept.1, reconnects-stages attempts spawned))
