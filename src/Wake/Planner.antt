-- ===== src/Wake/Planner.antt =====
-- Which wake it was: the alarm's or the user's (src/sleep/planner.rs). Times are nanoseconds since
-- the epoch.
use ampered.Prelude.{ℕ, ◌+◌, ◌-◌, ◌≤◌, ◌≡◌, arith, Option, none, some, if◌then◌else◌, leb, ◌↔◌}

pub data Wake : Type 0 where
  scheduled : Wake
  user : Wake

-- `duration_since` in either direction.
off_by : ℕ → ℕ → ℕ
off_by now at = if leb at now then now - at else at - now

unfoldable pub classify_wake : ℕ → Option ℕ → ℕ → Wake
unfolding off_by
classify_wake now none slack = Wake.user
classify_wake now (some at) slack = if leb (off_by now at) slack then Wake.scheduled else Wake.user

-- What the daemon remembers between `ScheduleWake` and the next `Resumed`.
pub record Planner : Type 0 where
  pub alarm : Option ℕ

unfoldable pub new : Planner
new = record { alarm = none }

unfoldable pub armed : ℕ → Planner → Planner
armed at p = record { alarm = some at }

unfoldable pub disarmed : Planner → Planner
disarmed p = record { alarm = none }

-- Classifies the wake and forgets the alarm.
unfoldable pub classify : ℕ → ℕ → Planner → Wake × Planner
classify now slack p = (classify_wake now p.alarm slack, record { alarm = none })

-- With an alarm armed, a wake is the alarm's exactly when the clock is at most `slack` away from
-- it, on either side.
classify_wake_iff :
    (now at slack : ℕ)
    → (classify now slack (armed at (new))).0 ≡ Wake.scheduled
      ↔ ((now ≤ at + slack) × (at ≤ now + slack))
unfolding classify armed new classify_wake off_by
classify_wake_iff now at slack = ground arith
