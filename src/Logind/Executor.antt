-- ===== src/Logind/Executor.antt =====
-- What the executor of the requests to logind does, and what it reports (src/logind.rs).
use ampered.Prelude.{
  ◌≡◌, ◌≢◌, refl, Bool, true, false, List, [], ◌∷◌, Option, none, some, if◌then◌else◌, arith, All,
  Bool-cases, inl, inr, ◌⊎◌,
}
use ampered.Config.Sections.{SleepMethod}
use ampered.Core.Types.{Event, Inhibitor}
use ampered.Logind.Actor.{
  Request, Manager, Call, Listed, blocks_sleep, inhibitor_of, blocking, blocking_inhibitors,
  has_any, serve,
}

-- No inhibitor that blocks the sleep stands in a list.
abbrev pub NoBlocker : List Listed → Type 0
NoBlocker list = All (λ l. blocks_sleep l ≡ false) list

blocking-none : (list : List Listed) → has_any (blocking list) ≡ false → NoBlocker list
unfolding blocking
blocking-none [] h = tt
blocking-none (l ∷ rest) h = elim (Bool-cases (blocks_sleep l)) [
  | inl blocked ↦ absurd (ground arith)
  | inr free ↦ (free, blocking-none rest (rw free at h))
]

-- What the bus listed, if it did.
abbrev pub the_list : Option (List Listed) → List Listed
the_list none = []
the_list (some list) = list

answer-none :
    (answer : Option (List Listed))
    → has_any (blocking_inhibitors answer) ≡ false
    → NoBlocker (the_list answer)
unfolding blocking_inhibitors
answer-none none h = tt
answer-none (some list) h = blocking-none list h

-- The inhibitors of a list that block the sleep, in its order.
pub data Blocks : List Listed → List Inhibitor → Type 0 where
  ends : Blocks [] []
  counts :
      {l : Listed} {rest : List Listed} {others : List Inhibitor}
      → blocks_sleep l ≡ true
      → Blocks rest others
      → Blocks (l ∷ rest) (inhibitor_of l ∷ others)
  passes :
      {l : Listed} {rest : List Listed} {others : List Inhibitor}
      → blocks_sleep l ≡ false
      → Blocks rest others
      → Blocks (l ∷ rest) others

blocking-Blocks : (list : List Listed) → Blocks list (blocking list)
unfolding blocking
blocking-Blocks [] = Blocks.ends
blocking-Blocks (l ∷ rest) = elim (Bool-cases (blocks_sleep l)) [
  | inl blocked ↦ rw blocked (Blocks.counts blocked (blocking-Blocks rest))
  | inr free ↦ rw free (Blocks.passes free (blocking-Blocks rest))
]

answer-Blocks :
    (answer : Option (List Listed)) → Blocks (the_list answer) (blocking_inhibitors answer)
unfolding blocking_inhibitors
answer-Blocks none = Blocks.ends
answer-Blocks (some list) = blocking-Blocks list

-- The ends of a request to sleep.
pub data Served (manager : Manager) (method : SleepMethod) (force respect : Bool)
    : List Call × List Event → Type 0 where
  blocked :
      (blockers : List Inhibitor)
      → blockers ≢ []
      → Blocks (the_list manager.inhibitors) blockers
      → force ≡ false
      → respect ≡ true
      → Served manager method force respect ([], Event.sleep_blocked blockers ∷ [])
  asked :
      (force ≡ true) ⊎ ((respect ≡ false) ⊎ NoBlocker (the_list manager.inhibitors))
      → (events : List Event)
      → events ≡ (if manager.accepts method then [] else Event.sleep_failed ∷ [])
      → Served manager method force respect (Call.sleep method ∷ [], events)

has_any-ne_nil : (l : List Inhibitor) → has_any l ≡ true → l ≢ []
has_any-ne_nil l h = λ e. cc

-- A request to sleep ends in one of three ways: inhibitors that block the sleep are in the way, logind is
-- not asked, and exactly those of its list that block the sleep are reported, in its order; or logind is asked for the method of the request and accepts, and nothing is
-- reported; or it refuses, and the failure is reported. Without force, and with inhibitors respected,
-- it is asked only if no inhibitor is listed that blocks the sleep.
pub serve-Served :
    (manager : Manager) (method : SleepMethod) (force respect : Bool)
    → Served manager method force respect (serve manager (Request.sleep method force respect))
unfolding serve
serve-Served manager method true respect = Served.asked (inl refl) _ refl
serve-Served manager method false false = Served.asked (inr (inl refl)) _ refl
serve-Served manager method false true =
    elim (Bool-cases (has_any (blocking_inhibitors manager.inhibitors))) [
      | inl some_block ↦ rw some_block (
          Served.blocked _ (has_any-ne_nil (blocking_inhibitors manager.inhibitors) some_block)
            (answer-Blocks manager.inhibitors) refl refl)
      | inr free ↦ rw free (Served.asked (inr (inr (answer-none manager.inhibitors free))) _ refl)
    ]
