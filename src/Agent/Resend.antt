-- ===== src/Agent/Resend.antt =====
-- A connected agent knows the current settings (src/agent.rs).
use ampered.Prelude.{
  ◌≡◌, refl, Bool, List, [], ◌∷◌, ◌++◌, Option, none, some, String, Bool-cases, inl, inr, ap, subst,
  ◌∙◌,
}
use ampered.Config.Durations.{Duration}
use ampered.Config.Sections.{Display}
use ampered.Core.Types.{Stages}
use ampered.Agent.Link.{
  push, noted, AgentOp, AgentEvent, AgentId, AgentLink, Stream, stages_op, new, send,
  replace_stages, set_screen, set_display, same_display, register, is_current, unregister, note,
}

-- What an agent holds that has carried out the operations in their order.
pub record View : Type 0 where
  pub display : Option Display
  pub stages : Option AgentOp

abbrev pub see : AgentOp → View → View
see (AgentOp.display d) v = record v { display = some d }
see (AgentOp.stages a b c) v = record v { stages = some (AgentOp.stages a b c) }
see (AgentOp.screen on) v = v

abbrev pub view : List AgentOp → View → View
view [] v = v
view (op ∷ ops) v = view ops (see op v)

abbrev pub blank : View
blank = record { display = none; stages = none }

view-append : (xs ys : List AgentOp) (v : View) → view (xs ++ ys) v ≡ view ys (view xs v)
view-append [] ys v = refl
view-append (x ∷ xs) ys v = view-append xs ys (see x v)

-- The agent of a stream, if there is one, holds a view.
abbrev pub Holds : Option Stream → View → Type 0
Holds none v = Unit {0}
Holds (some s) v = view s.sent blank ≡ v

push-Holds :
    (op : AgentOp) (stream : Option Stream) (v : View)
    → Holds stream v
    → Holds (push op stream) (see op v)
unfolding push
push-Holds op none v h = tt
push-Holds op (some s) v h = view-append s.sent (op ∷ []) blank ∙ ap (see op) h

module _ (humantime : Duration → String) where
  abbrev pub settings : AgentLink → View
  settings l = record { display = some l.display; stages = some (stages_op humantime l.stages) }

  -- The operations of the daemon, and those of a stream with whatever number.
  pub data Step : AgentLink → AgentLink → Type 0 where
    stages : (s : Stages) (l : AgentLink) → Step l (replace_stages humantime s l)
    screen : (on : Bool) (l : AgentLink) → Step l (set_screen on l)
    display : (d : Display) (l : AgentLink) → Step l (set_display d l)
    registers : (l : AgentLink) → Step l (register humantime l).0
    unregisters : (id : AgentId) (l : AgentLink) → Step l (unregister id l).0
    notes : (id : AgentId) (event : AgentEvent) (l : AgentLink) → Step l (note id event l)

  -- The links that a daemon reaches from its start with a `[display]` section.
  pub data Reach (config : Display) : AgentLink → Type 0 where
    fresh : Reach config (new config)
    then_step : {l l' : AgentLink} → Reach config l → Step l l' → Reach config l'

  abbrev Known : AgentLink → Type 0
  Known l = Holds l.stream (settings l)

  noted-Known : (event : AgentEvent) (l : AgentLink) → Known l → Known (noted event l)
  unfolding noted
  noted-Known (AgentEvent.backend name connected) l k = k
  noted-Known (AgentEvent.display available) l k = k
  noted-Known (AgentEvent.idle stage) l k = k
  noted-Known AgentEvent.activity l k = k

  Step-Known : {l l' : AgentLink} → Step l l' → Known l → Known l'
  unfolding replace_stages set_screen set_display send register unregister note stages_op push
  Step-Known (Step.stages s l) k = push-Holds (stages_op humantime s) l.stream (settings l) k
  Step-Known (Step.screen on l) k = push-Holds (AgentOp.screen on) l.stream (settings l) k
  Step-Known (Step.display d l) k = elim (Bool-cases (same_display l.display d)) [
    | inl same ↦ rw same k
    | inr other ↦ rw other (push-Holds (AgentOp.display d) l.stream (settings l) k)
  ]
  Step-Known (Step.registers l) k = refl
  Step-Known (Step.unregisters id l) k = elim (Bool-cases (is_current id l.stream)) [
    | inl same ↦ rw same tt
    | inr other ↦ rw other k
  ]
  Step-Known (Step.notes id event l) k = elim (Bool-cases (is_current id l.stream)) [
    | inl same ↦ rw same (noted-Known event l k)
    | inr other ↦ rw other k
  ]

  Reach-Known : {config : Display} {l : AgentLink} → Reach config l → Known l
  unfolding new
  Reach-Known Reach.fresh = tt
  Reach-Known (Reach.then_step r s) = Step-Known s (Reach-Known r)

  -- Whenever an agent is connected, in whatever order agents came, went and replaced each other and
  -- the daemon changed its settings: the agent that carries out what was sent on its stream, in that
  -- order, has the current `[display]` section and the current idle stages.
  pub connected-knows :
      {config : Display} {l : AgentLink} {s : Stream}
      → Reach config l
      → l.stream ≡ some s
      → view s.sent blank ≡ settings l
  connected-knows {l = l} r e = subst (λ stream. Holds stream (settings l)) e (Reach-Known r)
