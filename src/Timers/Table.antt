-- ===== src/Timers/Table.antt =====
-- The table of running timers and the channel of fires (src/timers.rs). The channel is a list, and
-- the task of a timer that sleeps and then sends is the operation `expire`.
use ampered.Prelude.{
  ℕ, ◌+◌, Bool, true, false, List, [], ◌∷◌, ◌++◌, Option, none, some, if◌then◌else◌, ◌==◌,
}
use ampered.Core.Types.{TimerId, u64_add}

-- A running timer: its id, when it will fire, and which start it belongs to.
pub record Running : Type 0 where
  pub timer : TimerId
  pub deadline : ℕ
  pub generation : ℕ  -- u64

-- What a task sends when its sleep is over.
pub record Fire : Type 0 where
  pub timer : TimerId
  pub generation : ℕ  -- u64

pub record Timers : Type 0 where
  pub fired : List Fire
  pub next_generation : ℕ  -- u64
  pub running : List Running

-- `==` of the ids.
unfoldable pub same_timer : TimerId → TimerId → Bool
same_timer TimerId.grace TimerId.grace = true
same_timer TimerId.awake_window TimerId.awake_window = true
same_timer (TimerId.inhibit_expiry a) (TimerId.inhibit_expiry b) = a == b
same_timer TimerId.sleep_retry TimerId.sleep_retry = true
same_timer _ _ = false

unfoldable pub lookup : TimerId → List Running → Option Running
lookup id [] = none
lookup id (r ∷ rest) = if same_timer r.timer id then some r else lookup id rest

unfoldable pub without : TimerId → List Running → List Running
without id [] = []
without id (r ∷ rest) =
    let others = without id rest in if same_timer r.timer id then others else r ∷ others

unfoldable pub new : Timers
new = record { fired = []; next_generation = 0; running = [] }

unfoldable pub cancel : TimerId → Timers → Timers
cancel id t = record t { running = without id t.running }

-- Starting a timer that is already running replaces it.
unfoldable pub start : TimerId → ℕ → ℕ → Timers → Timers
start id now after t =
    let t' = cancel id t in
    let generation = u64_add t'.next_generation 1 in
    record t' {
      next_generation = generation;
      running = record { timer = id; deadline = now + after; generation = generation } ∷ t'.running;
    }

deadline_of : Option Running → Option ℕ
deadline_of none = none
deadline_of (some r) = some r.deadline

unfoldable pub deadline : TimerId → Timers → Option ℕ
unfolding deadline_of
deadline id t = deadline_of (lookup id t.running)

-- The task of a start sends its fire. An aborted task may have sent before the abort, so any fire
-- of a start that was made can be on the channel.
unfoldable pub expire : Fire → Timers → Timers
expire fire t = record t { fired = t.fired ++ (fire ∷ []) }

-- Whether a fire belongs to the start that is running.
unfoldable pub is_current : Fire → Option Running → Bool
is_current fire none = false
is_current fire (some r) = r.generation == fire.generation

-- The loop of `fired` over the channel: stale fires are dropped, and a current one is returned and
-- its timer removed. With an empty channel the loop waits, which is `none`.
unfoldable pub take_fired : List Fire → List Running → Option (TimerId × List Fire × List Running)
take_fired [] running = none
take_fired (fire ∷ fires) running =
    let rest = take_fired fires running in
    if is_current fire (lookup fire.timer running)
    then some (fire.timer, fires, without fire.timer running)
    else rest

-- The table after the loop, with the id that it returned.
unfoldable pub after_fired :
    Option (TimerId × List Fire × List Running) → Timers → Option TimerId × Timers
after_fired none t = (none, record t { fired = [] })
after_fired (some (id, fires, running)) t = (some id, record t { fired = fires; running = running })

unfoldable pub fired : Timers → Option TimerId × Timers
unfolding after_fired
fired t = after_fired (take_fired t.fired t.running) t
