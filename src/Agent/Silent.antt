-- ===== src/Agent/Silent.antt =====
-- What a connection says of the backend before the notifier is found (src/idle.rs).
use ampered.Prelude.{
  ◌≡◌, refl, arith, Bool, true, false, ◌&&◌, List, [], ◌∷◌, ◌++◌, if◌then◌else◌, Bool-cases, inl,
  inr, ◌∙◌,
}
use ampered.Core.Types.{Event, Stages}
use ampered.Agent.Watcher.{
  Watcher, Interface, connected, on_global, ready, remove_output, on_idled, on_stage_resumed,
  on_failed, set_stages, is_primary,
}
use ampered.Agent.Reconnect.{Message, dispatch, dispatch_all}

-- What the events say last of the backend.
abbrev pub after_event : Event → Bool → Bool
after_event (Event.idle_backend_changed connected) known = connected
after_event _ known = known

abbrev pub backend_after : List Event → Bool → Bool
backend_after [] known = known
backend_after (e ∷ rest) known = backend_after rest (after_event e known)

pub backend_after-++ :
    (es fs : List Event) (known : Bool)
    → backend_after (es ++ fs) known ≡ backend_after fs (backend_after es known)
backend_after-++ [] fs known = refl
backend_after-++ (e ∷ es) fs known = backend_after-++ es fs (after_event e known)

-- Without an announced backend nothing that went out or goes out says that there is one.
pub record IsSilent (known : Bool) (w : Watcher) : Type 0 where
  pub before : w.announced ≡ false → known ≡ false
  pub quiet : w.announced ≡ false → backend_after w.outgoing known ≡ false

module _ (known : Bool) where
  pub set_stages-IsSilent :
      (s : Stages) (w : Watcher) → IsSilent known w → IsSilent known (set_stages s w)
  unfolding set_stages
  set_stages-IsSilent s w q = elim (Bool-cases (w.seat && w.notifier)) [
    | inl both ↦ rw both (record { before = q.before; quiet = q.quiet })
    | inr apart ↦ rw apart (record { before = q.before; quiet = q.quiet })
  ]

  ready-IsSilent : (w : Watcher) → IsSilent known w → IsSilent known (ready w)
  ready-IsSilent w q = elim (Bool-cases (w.seat && w.notifier)) [
    | inl both ↦ rw both (set_stages-IsSilent w.wanted w q)
    | inr apart ↦ rw apart q
  ]

  pub either-IsSilent :
      (test : Bool) (a b : Watcher)
      → IsSilent known a
      → IsSilent known b
      → IsSilent known (if test then a else b)
  either-IsSilent true a b ha hb = ha
  either-IsSilent false a b ha hb = hb

  -- An event that says nothing of the backend goes out.
  says-IsSilent :
      (e : Event) (w : Watcher)
      → ((k : Bool) → after_event e k ≡ k)
      → IsSilent known w
      → IsSilent known (record w { outgoing = w.outgoing ++ e ∷ [] })
  says-IsSilent e w silent q = record {
    before = q.before;
    quiet = λ h.
        backend_after-++ w.outgoing (e ∷ []) known
        ∙ (silent (backend_after w.outgoing known) ∙ q.quiet h);
  }

  dispatch-IsSilent : (m : Message) (w : Watcher) → IsSilent known w → IsSilent known (dispatch m w)
  unfolding dispatch on_global remove_output on_idled on_stage_resumed on_failed
  dispatch-IsSilent (Message.global name Interface.seat) w q =
      either-IsSilent w.seat w (ready (record w { seat = true })) q
        (ready-IsSilent (record w { seat = true }) (record { before = q.before; quiet = q.quiet }))
  dispatch-IsSilent (Message.global name Interface.idle_notifier) w q =
      let found : Watcher = record w {
        notifier = true;
        announced = true;
        outgoing = w.outgoing ++ Event.idle_backend_changed true ∷ [];
      } in
      ready-IsSilent found (record { before = λ h. ground arith; quiet = λ h. ground arith })
  dispatch-IsSilent (Message.global name Interface.power_manager) w q = record {
    before = q.before;
    quiet = q.quiet;
  }
  dispatch-IsSilent (Message.global name Interface.output) w q = record {
    before = q.before;
    quiet = q.quiet;
  }
  dispatch-IsSilent (Message.global name Interface.other) w q = q
  dispatch-IsSilent (Message.global_remove name) w q = record { before = q.before; quiet = q.quiet }
  dispatch-IsSilent (Message.idled stage) w q = says-IsSilent (Event.idle stage) w (λ k. refl) q
  dispatch-IsSilent (Message.resumed stage) w q =
      either-IsSilent (is_primary w.primary stage)
        (record w { outgoing = w.outgoing ++ Event.activity ∷ [] }) w
        (says-IsSilent Event.activity w (λ k. refl) q) q
  dispatch-IsSilent (Message.failed name) w q = record { before = q.before; quiet = q.quiet }

  pub dispatch_all-IsSilent :
      (ms : List Message) (w : Watcher) → IsSilent known w → IsSilent known (dispatch_all ms w)
  unfolding dispatch_all
  dispatch_all-IsSilent [] w q = q
  dispatch_all-IsSilent (m ∷ rest) w q =
      dispatch_all-IsSilent rest (dispatch m w) (dispatch-IsSilent m w q)
