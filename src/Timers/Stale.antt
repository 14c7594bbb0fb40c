-- ===== src/Timers/Stale.antt =====
-- Stale fires of timers are dropped, and current ones arrive (src/timers.rs).
use ampered.Prelude.{
  ℕ, ◌^◌, ◌+◌, ◌≤◌, ◌<◌, ◌≡◌, ◌≢◌, refl, arith, Bool, true, false, List, [], ◌∷◌, Option, none,
  some, if◌then◌else◌, All, Bool-cases, inl, inr, ◌⊎◌, is_some, ap, ◌∙◌,
}
use ampered.Core.Types.{TimerId, u64_add}
use ampered.Timers.Table.{
  Running, Fire, Timers, same_timer, lookup, without, cancel, start, is_current, take_fired,
  after_fired, fired,
}

-- Generations on the channel and in the table are those of starts that were made.
pub record AreStarted (t : Timers) : Type 0 where
  pub fires : All (λ (f : Fire). f.generation ≤ t.next_generation) t.fired
  pub table : All (λ (r : Running). r.generation ≤ t.next_generation) t.running

pub same_timer_refl : (id : TimerId) → same_timer id id ≡ true
unfolding same_timer
same_timer_refl TimerId.grace = refl
same_timer_refl TimerId.sleep_retry = refl
same_timer_refl TimerId.awake_window = refl
same_timer_refl (TimerId.inhibit_expiry n) = ground arith

same_timer-eq : (a b : TimerId) → same_timer a b ≡ true → a ≡ b
unfolding same_timer
same_timer-eq a b h = ground arith

pub lookup-without : (id : TimerId) (l : List Running) → lookup id (without id l) ≡ none
unfolding lookup without
lookup-without id [] = refl
lookup-without id (r ∷ rest) = ground (arith, lookup-without id rest)

cases_agree :
    (test : Bool) (r : Running) (a b : Option Running)
    → a ≡ b
    → (if test then some r else a) ≡ (if test then some r else b)
cases_agree true r a b h = refl
cases_agree false r a b h = h

pub lookup-without_other :
    (id other : TimerId) (l : List Running)
    → same_timer id other ≡ false
    → lookup other (without id l) ≡ lookup other l
unfolding lookup without
lookup-without_other id other [] h = refl
lookup-without_other id other (r ∷ rest) h =
    let ih = lookup-without_other id other rest h in
    elim (Bool-cases (same_timer r.timer id)) [
      | inl e ↦
          let split = same_timer-eq r.timer id e in
          let elsewhere : same_timer r.timer other ≡ false = rw split h in rw e (rw elsewhere ih)
      | inr e ↦ rw e (
          cases_agree (same_timer r.timer other) r (lookup other (without id rest))
            (lookup other rest) ih)
    ]

pub without-All {κ} :
    (P : Running → Type κ) (id : TimerId) (l : List Running) → All P l → All P (without id l)
unfolding without
without-All P id [] h = tt
without-All P id (r ∷ rest) h = elim (Bool-cases (same_timer r.timer id)) [
  | inl e ↦ rw e (without-All P id rest h.1)
  | inr e ↦ rw e (h.0, without-All P id rest h.1)
]

-- What the loop may return: never the timer `id`.
abbrev Spares : TimerId → Option (TimerId × List Fire × List Running) → Type 0
Spares id none = Unit
Spares id (some (other, fires, running)) = other ≢ id

-- No fire on the channel belongs to the running start of `id`.
abbrev AllStale : TimerId → List Running → List Fire → Type 0
AllStale id running = All (λ (f : Fire). f.timer ≡ id → is_current f (lookup id running) ≡ false)

stale-spared :
    (id : TimerId) (fires : List Fire) (running : List Running)
    → AllStale id running fires
    → Spares id (take_fired fires running)
unfolding take_fired
stale-spared id [] running h = tt
stale-spared id (f ∷ fires) running h = elim (Bool-cases (is_current f (lookup f.timer running))) [
  | inl e ↦ rw e (λ same.
      let stale = h.0 same in let here = ap (λ t. is_current f (lookup t running)) same in cc)
  | inr e ↦ rw e (stale-spared id fires running h.1)
]

-- A fire of the running start is on the channel.
abbrev Holds : Fire → List Fire → Type 0
Holds fire [] = ⊥
Holds fire (f ∷ fires) = (f ≡ fire) ⊎ Holds fire fires

current-taken :
    (fire : Fire) (fires : List Fire) (running : List Running)
    → is_current fire (lookup fire.timer running) ≡ true
    → Holds fire fires
    → is_some (take_fired fires running) ≡ true
unfolding take_fired
current-taken fire [] running c h = absurd h
current-taken fire (f ∷ fires) running c h =
    elim (Bool-cases (is_current f (lookup f.timer running))) [
      | inl e ↦ rw e (refl)
      | inr e ↦ elim h [
        | inl same ↦ let here = ap (λ g. is_current g (lookup g.timer running)) same in absurd (cc)
        | inr later ↦ rw e (current-taken fire fires running c later)
      ]
    ]

restarted_stale :
    (id : TimerId) (fires : List Fire) (running : List Running) (r : Running)
    → lookup id running ≡ some r
    → All (λ (f : Fire). f.generation < r.generation) fires
    → AllStale id running fires
unfolding is_current
restarted_stale id [] running r e h = tt
restarted_stale id (f ∷ fires) running r e h =
    (λ same. let old = h.0 in rw e (ground arith), restarted_stale id fires running r e h.1)

cancelled_stale :
    (id : TimerId) (fires : List Fire) (running : List Running)
    → lookup id running ≡ none
    → AllStale id running fires
unfolding is_current
cancelled_stale id [] running e = tt
cancelled_stale id (f ∷ fires) running e = (λ same. rw e refl, cancelled_stale id fires running e)

older :
    (m n : ℕ) (fires : List Fire)
    → m < n
    → All (λ (f : Fire). f.generation ≤ m) fires
    → All (λ (f : Fire). f.generation < n) fires
older m n [] p h = tt
older m n (f ∷ fires) p h = let first = h.0 in (omega arith, older m n fires p h.1)

spared-after_fired :
    (id : TimerId) (result : Option (TimerId × List Fire × List Running)) (t : Timers)
    → Spares id result
    → (after_fired result t).0 ≢ some id
unfolding after_fired
spared-after_fired id none t h = λ e. cc
spared-after_fired id (some (other, fires, running)) t h = λ e. absurd (h (cc))

-- After `cancel`, no fire that was on the channel brings that timer back, whatever its generation.
pub cancel-fired : (id : TimerId) (t : Timers) → (fired (cancel id t)).0 ≢ some id
unfolding fired cancel
cancel-fired id t =
    let gone = without id t.running in
    let stale = cancelled_stale id t.fired gone (lookup-without id t.running) in
    spared-after_fired id (take_fired t.fired gone) (cancel id t)
      (stale-spared id t.fired gone stale)

started_found :
    (id : TimerId) (now after : ℕ) (t : Timers)
    → lookup id (start id now after t).running
      ≡ some
          (record { timer = id; deadline = now + after; generation = u64_add t.next_generation 1 })
unfolding start cancel lookup
started_found id now after t = rw (same_timer_refl id) refl

-- The count of the starts does not wrap around before it is full.
pub generation_fits : (n : ℕ) → n + 1 < 2 ^ 64 → u64_add n 1 ≡ n + 1
generation_fits n h = ground arith

-- With all generations those of starts that were made, and fewer starts than a `u64` can count, the fires
-- of earlier starts that are on the channel at a `start` do not bring that timer.
pub start-fired :
    (id : TimerId) (now after : ℕ) (t : Timers)
    → AreStarted t
    → t.next_generation + 1 < 2 ^ 64
    → (fired (start id now after t)).0 ≢ some id
unfolding fired start cancel
start-fired id now after t v fits =
    let started = start id now after t in
    let found : lookup id started.running
        ≡ some (record { timer = id; deadline = now + after; generation = t.next_generation + 1 }) =
      started_found id now after t
      ∙ ap (λ g. some (record { timer = id; deadline = now + after; generation = g }))
          (generation_fits t.next_generation fits) in
    let old = older t.next_generation (t.next_generation + 1) t.fired (omega arith) v.fires in
    let stale = restarted_stale id t.fired started.running _ found old in
    spared-after_fired id (take_fired t.fired started.running) started
      (stale-spared id t.fired started.running stale)

found_some :
    (fire : Fire) (running : List Running) (r : Running)
    → lookup fire.timer running ≡ some r
    → r.generation ≡ fire.generation
    → is_current fire (lookup fire.timer running) ≡ true
unfolding is_current
found_some fire running r e same = rw e (ground arith)

some-after_fired :
    (result : Option (TimerId × List Fire × List Running)) (t : Timers)
    → is_some result ≡ true
    → is_some (after_fired result t).0 ≡ true
unfolding after_fired
some-after_fired none t h = h
some-after_fired (some (other, fires, running)) t h = refl

-- The fire of a running start is not lost: with it on the channel, the loop returns some timer.
current-fired :
    (fire : Fire) (r : Running) (t : Timers)
    → lookup fire.timer t.running ≡ some r
    → r.generation ≡ fire.generation
    → Holds fire t.fired
    → is_some (fired t).0 ≡ true
unfolding fired
current-fired fire r t e same h =
    some-after_fired (take_fired t.fired t.running) t
      (current-taken fire t.fired t.running (found_some fire t.running r e same) h)
