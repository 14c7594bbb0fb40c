-- ===== src/Timers/Once.antt =====
-- A start fires at most once, and the table keeps to the starts that were made (src/timers.rs).
use ampered.Prelude.{
  ℕ, ◌^◌, ◌<◌, ◌+◌, ◌≤◌, ◌≡◌, refl, arith, List, [], ◌∷◌, Option, none, some, All, All-append,
  Bool-cases, inl, inr,
}
use ampered.Core.Types.{TimerId}
use ampered.Timers.Table.{
  Running, Fire, Timers, lookup, without, cancel, start, deadline, expire, is_current, take_fired,
  after_fired, fired,
}
use ampered.Timers.Stale.{generation_fits, AreStarted, lookup-without, without-All}

abbrev Result : Type 0
Result = Option (TimerId × List Fire × List Running)

-- The timer that the loop returns is taken off the table, and no other.
abbrev Removed : List Running → Result → Type 0
Removed before none = Unit
Removed before (some (id, fires, running)) = running ≡ without id before

take_fired-Removed :
    (fires : List Fire) (running : List Running) → Removed running (take_fired fires running)
unfolding take_fired
take_fired-Removed [] running = tt
take_fired-Removed (f ∷ fires) running = elim (Bool-cases (is_current f (lookup f.timer running))) [
  | inl e ↦ rw e refl
  | inr e ↦ rw e (take_fired-Removed fires running)
]

Removed-after_fired :
    (id : TimerId) (result : Result) (t : Timers)
    → Removed t.running result
    → (after_fired result t).0 ≡ some id
    → (after_fired result t).1.running ≡ without id t.running
unfolding after_fired
Removed-after_fired id none t h e = absurd (cc)
Removed-after_fired id (some (other, fires, running)) t h e =
    let same : other ≡ id = cc in rw (← same) h

pub fired-without :
    (id : TimerId) (t : Timers) → (fired t).0 ≡ some id → (fired t).1.running ≡ without id t.running
unfolding fired
fired-without id t e =
    Removed-after_fired id (take_fired t.fired t.running) t (take_fired-Removed t.fired t.running) e

-- A start fires once: when the loop has returned a timer, that timer is no longer running.
pub fired-removes :
    (id : TimerId) (t : Timers) → (fired t).0 ≡ some id → deadline id (fired t).1 ≡ none
unfolding deadline
fired-removes id t e = rw (fired-without id t e, lookup-without id t.running) refl

-- What the loop leaves was there before.
abbrev Kept : (Fire → Type 0) → (Running → Type 0) → Result → Type 0
Kept P Q none = Unit
Kept P Q (some (id, fires, running)) = All P fires × All Q running

take_fired-Kept :
    (P : Fire → Type 0) (Q : Running → Type 0) (fires : List Fire) (running : List Running)
    → All P fires
    → All Q running
    → Kept P Q (take_fired fires running)
unfolding take_fired
take_fired-Kept P Q [] running p q = tt
take_fired-Kept P Q (f ∷ fires) running p q =
    elim (Bool-cases (is_current f (lookup f.timer running))) [
      | inl e ↦ rw e (p.1, without-All Q f.timer running q)
      | inr e ↦ rw e (take_fired-Kept P Q fires running p.1 q)
    ]

-- The operations of the daemon and the fires of tasks that were started.
pub data Step : Timers → Timers → Type 0 where
  starts :
      (id : TimerId) (now after : ℕ) (t : Timers)
      → t.next_generation + 1 < 2 ^ 64
      → Step t (start id now after t)
  cancels : (id : TimerId) (t : Timers) → Step t (cancel id t)
  expires :
      (fire : Fire) (t : Timers) → fire.generation ≤ t.next_generation → Step t (expire fire t)
  takes : (t : Timers) → Step t (fired t).1

later_fires :
    (m n : ℕ) (l : List Fire)
    → m ≤ n
    → All (λ (f : Fire). f.generation ≤ m) l
    → All (λ (f : Fire). f.generation ≤ n) l
later_fires m n [] p h = tt
later_fires m n (f ∷ l) p h = let first = h.0 in (omega arith, later_fires m n l p h.1)

later_running :
    (m n : ℕ) (l : List Running)
    → m ≤ n
    → All (λ (r : Running). r.generation ≤ m) l
    → All (λ (r : Running). r.generation ≤ n) l
later_running m n [] p h = tt
later_running m n (r ∷ l) p h = let first = h.0 in (omega arith, later_running m n l p h.1)

after_fired-AreStarted :
    (result : Result) (t : Timers)
    → AreStarted t
    → Kept (λ f. f.generation ≤ t.next_generation) (λ r. r.generation ≤ t.next_generation) result
    → AreStarted (after_fired result t).1
unfolding after_fired
after_fired-AreStarted none t v k = record { fires = tt; table = v.table }
after_fired-AreStarted (some (id, fires, running)) t v k = record { fires = k.0; table = k.1 }

-- Every operation, before a `u64` of starts, keeps the generations of the table and of the channel to starts that were made.
pub Step-AreStarted : (t t' : Timers) → Step t t' → AreStarted t → AreStarted t'
unfolding start cancel expire fired
Step-AreStarted _ _ (Step.starts id now after t fits) v =
    rw (generation_fits t.next_generation fits) (record {
      fires = later_fires t.next_generation (t.next_generation + 1) t.fired (omega arith) v.fires;
      table = (
        omega arith,
        later_running t.next_generation (t.next_generation + 1) (without id t.running) (omega arith)
            (without-All (λ r. r.generation ≤ t.next_generation) id t.running v.table),
      );
    })
Step-AreStarted _ _ (Step.cancels id t) v = record {
  fires = v.fires;
  table = without-All (λ r. r.generation ≤ t.next_generation) id t.running v.table;
}
Step-AreStarted _ _ (Step.expires fire t p) v = record {
  fires =
      All-append (λ (f : Fire). f.generation ≤ t.next_generation) t.fired (fire ∷ []) v.fires
        (p, tt);
  table = v.table;
}
Step-AreStarted _ _ (Step.takes t) v = after_fired-AreStarted (take_fired t.fired t.running) t v (
    take_fired-Kept (λ f. f.generation ≤ t.next_generation) (λ r. r.generation ≤ t.next_generation)
      t.fired t.running v.fires v.table)
