-- ===== src/Core/Numbered.antt =====
-- The engine's inhibitors: how events number, remove and obey them.
use ampered.Prelude.{
  min, subst, sym, ℕ, ◌+◌, ◌<◌, ◌^◌, ◌≡◌, refl, Bool, true, false, String, arith, List, [], ◌∷◌,
  ◌++◌, Bool-cases, ◌==◌, inl, inr,
}
use ampered.Config.Durations.{Duration}
use ampered.Ipc
use ampered.Ipc.{RequestId, InhibitWhat, max_inhibit_ttl, Response}
use ampered.Core.Sleep.{cancel_pending_sleep}
use ampered.Core.Events.{on_activity, on_ac_changed, has_inhibit, on_timer}
use ampered.Core.Handle.{handle, dispatch, announce}
use ampered.Core.Code.{handler_code}
use ampered.Core.Frames.{leave_cycle-frame, reapply_auto_mode-frame}
use ampered.Core.Inhibits.{
  IsNumbered, remove-IsNumbered, append-IsNumbered, remove-append, has-append,
}
use ampered.Core.Types.{Engine, Event, Inhibit, TimerId, Command, u64_add}
use ampered.Core.Requests.{on_inhibit, on_uninhibit, on_ipc}

-- Events that touch the inhibitors.
abbrev touches : Event → Bool
touches (Event.ipc id (Ipc.Request.inhibit what why ttl)) = true
touches (Event.ipc id (Ipc.Request.uninhibit inhibit)) = true
touches (Event.timer (TimerId.inhibit_expiry id)) = true
touches _ = false

abbrev SameInhibits : Engine → Engine → Type 0
SameInhibits e e' = (e'.inhibits ≡ e.inhibits) × (e'.next_inhibit_id ≡ e.next_inhibit_id)

on_ac_changed-SameInhibits : (ac : Bool) (e : Engine) → SameInhibits e (on_ac_changed ac e).0
unfolding on_ac_changed cancel_pending_sleep
on_ac_changed-SameInhibits ac e = grind (arith, leave_cycle-frame, reapply_auto_mode-frame)

on_activity-SameInhibits : (e : Engine) → SameInhibits e (on_activity e).0
unfolding on_activity
on_activity-SameInhibits e = grind (arith, leave_cycle-frame)

dispatch-SameInhibits :
    (humantime : Duration → String) (event : Event) (e : Engine)
    → touches event ≡ false
    → SameInhibits e (dispatch humantime event e).0
unfolding handler_code
dispatch-SameInhibits humantime Event.activity e h = on_activity-SameInhibits e
dispatch-SameInhibits humantime (Event.ac_changed ac) e h = on_ac_changed-SameInhibits ac e
dispatch-SameInhibits humantime (Event.ipc id Ipc.Request.undim) e h = on_activity-SameInhibits e
dispatch-SameInhibits humantime (Event.ipc id (Ipc.Request.screen Ipc.ScreenState.on)) e h =
    on_activity-SameInhibits e
dispatch-SameInhibits humantime (Event.ipc id (Ipc.Request.screen Ipc.ScreenState.off)) e h =
    ground arith
dispatch-SameInhibits humantime (Event.ipc id _) e h =
    grind (arith, leave_cycle-frame, reapply_auto_mode-frame)
dispatch-SameInhibits humantime (Event.timer id) e h =
    grind (arith, leave_cycle-frame, reapply_auto_mode-frame)
dispatch-SameInhibits humantime _ e h = grind (arith, leave_cycle-frame, reapply_auto_mode-frame)

abbrev pub WellNumbered : Engine → Type 0
WellNumbered e = IsNumbered e.next_inhibit_id e.inhibits

IsNumbered-weaken :
    (next : ℕ) (l : List Inhibit) → IsNumbered next l → (n : ℕ) → n ≡ next → IsNumbered n l
IsNumbered-weaken next l v n e = subst (λ k. IsNumbered k l) (sym e) v

on_inhibit-WellNumbered :
    (e : Engine) (id : RequestId) (what : InhibitWhat) (why : String) (ttl : Duration)
    → e.next_inhibit_id + 1 < 2 ^ 64
    → WellNumbered e
    → WellNumbered (on_inhibit id what why ttl e).0
unfolding on_inhibit
on_inhibit-WellNumbered e id what why ttl b v = elim (Bool-cases (min ttl max_inhibit_ttl == 0)) [
  | inl z ↦ rw z v
  | inr z ↦ rw z (
      IsNumbered-weaken (e.next_inhibit_id + 1) _
        (append-IsNumbered e.next_inhibit_id e.inhibits _ refl (ground arith) v)
        (u64_add e.next_inhibit_id 1) (ground arith))
]

on_uninhibit-WellNumbered :
    (e : Engine) (id : RequestId) (inhibit : ℕ)
    → WellNumbered e
    → WellNumbered (on_uninhibit id inhibit e).0
unfolding on_uninhibit
on_uninhibit-WellNumbered e id inhibit v = elim (Bool-cases (has_inhibit inhibit e.inhibits)) [
  | inl z ↦ rw (z, on_uninhibit) (remove-IsNumbered e.next_inhibit_id inhibit e.inhibits v)
  | inr z ↦ rw (z, on_uninhibit) v
]

same-WellNumbered : (e e' : Engine) → SameInhibits e e' → WellNumbered e → WellNumbered e'
same-WellNumbered e e' s v =
    subst (λ l. IsNumbered e'.next_inhibit_id l) (sym s.0)
      (subst (λ n. IsNumbered n e.inhibits) (sym s.1) v)

-- As long as the counter of inhibitors has not reached the end of its 64 bits, every event keeps the
-- numbers of the inhibitors distinct and below the counter, and every lifetime positive and at
-- most a day.
pub handle-WellNumbered :
    (humantime : Duration → String) (event : Event) (e : Engine)
    → e.next_inhibit_id + 1 < 2 ^ 64
    → WellNumbered e
    → WellNumbered (handle humantime event e).0
unfolding handle dispatch on_ipc on_timer
handle-WellNumbered humantime (Event.ipc id (Ipc.Request.inhibit what why ttl)) e b v =
    on_inhibit-WellNumbered e id what why ttl b v
handle-WellNumbered humantime (Event.ipc id (Ipc.Request.uninhibit inhibit)) e b v =
    on_uninhibit-WellNumbered e id inhibit v
handle-WellNumbered humantime (Event.timer (TimerId.inhibit_expiry id)) e b v =
    remove-IsNumbered e.next_inhibit_id id e.inhibits v
handle-WellNumbered humantime event e b v =
    same-WellNumbered e (dispatch humantime event e).0
      (dispatch-SameInhibits humantime event e refl) v

-- No state change, no announcement.
announce_same : (e e' : Engine) → e'.state ≡ e.state → announce e.state e' ≡ []
unfolding announce
announce_same e e' h = ground arith

-- A request for an inhibitor and its withdrawal, by the number that was answered, leave the list of
-- inhibitors as it was; in between the list ends in the new inhibitor, with its lifetime capped
-- at a day, and its expiry timer is started.
pub inhibit-uninhibit :
    (humantime : Duration → String) (e : Engine) (id later : RequestId) (what : InhibitWhat)
    (why : String) (ttl : Duration)
    → WellNumbered e
    → 0 < ttl
    → let n = e.next_inhibit_id in
      let first = handle humantime (Event.ipc id (Ipc.Request.inhibit what why ttl)) e in
      let new : Inhibit = record {
        id = n;
        what = what;
        why = why;
        ttl = min ttl max_inhibit_ttl;
      } in
      (first.0.inhibits ≡ e.inhibits ++ new ∷ [])
      × (first.1
          ≡ Command.start_timer (TimerId.inhibit_expiry n) (min ttl max_inhibit_ttl)
            ∷ (Command.reply id (Response.inhibited n) ∷ []))
      × ((handle humantime (Event.ipc later (Ipc.Request.uninhibit n)) first.0).0.inhibits
          ≡ e.inhibits)
unfolding handle dispatch on_ipc
inhibit-uninhibit humantime e id later what why ttl v p =
    let n = e.next_inhibit_id in
    let capped = min ttl max_inhibit_ttl in
    let new : Inhibit = record { id = n; what = what; why = why; ttl = capped } in
    let e' : Engine = record e {
      next_inhibit_id = u64_add n 1;
      inhibits = e.inhibits ++ new ∷ [];
    } in
    let some_time : (capped == 0) ≡ false = ground arith in
    rw (some_time, on_inhibit)
      (
        refl,
        rw (announce_same e e' refl),
        rw (has-append e.inhibits new, on_uninhibit) (remove-append e.inhibits new v.below),
      )
