-- ===== src/Backlight/Restore.antt =====
-- Dimming and restoring, with the fades run to their end.
use native.Mathlib.Nat.{le_refl}
use ampered.Prelude.{
  ap, ℕ, zero, suc, ◌+◌, ◌-◌, ◌*◌, ◌^◌, ◌≤◌, ◌<◌, ◌≡◌, ◌≢◌, refl, arith, min, true, false, none,
  some, ◌==◌, if◌then◌else◌, Bool-cases, inl, inr, ◌∙◌,
}
use ampered.Config.Durations.{Duration, from_millis}
use ampered.Backlight.Levels.{interpolate, target_for}
use ampered.Backlight.Scale.{interpolate_bounds}
use ampered.Backlight.Controller.{
  Controller, Device, Dimming, Fade, fade_step, rounds, settle, fade_to, fade_steps, stop_fade,
  dim_to, restore,
}

-- A controller whose device shows a level.
abbrev showing : Controller → Device → ℕ → Controller
showing c d value = record c { sink = some (record d { brightness = value }); written = value }

fade_step_lem :
    (c : Controller) (d : Device) (f : Fade)
    → d.writable ≡ true
    → f.step ≤ f.steps
    → fade_step (record c { sink = some d; fade = some f })
      ≡ record (showing c d (interpolate f.from f.to f.step f.steps)) {
        fade = some (record f { step = f.step + 1 });
      }
unfolding fade_step
fade_step_lem c d f w h = ground arith

rounds-finish :
    (n : ℕ) (c : Controller) (d : Device) (f : Fade)
    → d.writable ≡ true
    → f.from < 2 ^ 32
    → f.to < 2 ^ 32
    → f.steps < 2 ^ 31
    → 0 < f.step
    → f.step + n ≡ f.steps
    → rounds (suc n) (record c { sink = some d; fade = some f })
      ≡ record (showing c d f.to) { fade = some (record f { step = f.steps + 1 }) }
unfolding rounds
rounds-finish zero c d f w a b s p e =
    fade_step_lem c d f w (omega arith)
    ∙ ground (
      arith,
      interpolate_bounds f.from f.to f.steps f.steps a b (omega arith) (le_refl f.steps) s,
    )
rounds-finish (suc n) c d f w a b s p e =
    let value = interpolate f.from f.to f.step f.steps in
    rw (fade_step_lem c d f w (omega arith)) (
      rounds-finish n (record c { written = value }) (record d { brightness = value })
        (record f { step = f.step + 1 }) w a b s (omega arith) (omega arith))

fade_steps_pos :
    (t : Duration) → t < from_millis (16 * 2 ^ 31) → (0 < fade_steps t) × (fade_steps t < 2 ^ 31)
unfolding fade_steps
fade_steps_pos t h = ground arith

-- A fade that runs to its end leaves the device, and the level that counts as ours, at its goal.
pub fade_to-settle :
    (c : Controller) (d : Device) (from to : ℕ)
    → d.writable ≡ true
    → from < 2 ^ 32
    → to < 2 ^ 32
    → c.transition < from_millis (16 * 2 ^ 31)
    → from ≢ to
    → settle (fade_to (record c { sink = some d }) d from to)
      ≡ record (showing c d to) { fade = none }
unfolding settle fade_to stop_fade
fade_to-settle c d from to w a b s n =
    let steps = fade_steps c.transition in
    let few = fade_steps_pos c.transition s in
    let apart : (from == to) ≡ false = ground arith in
    elim (Bool-cases (steps == 1)) [
      | inl once ↦ rw (apart, fade_to) (rw (once, fade_to) (unfold rounds in ground arith))
      | inr more ↦
          let f : Fade = record { from = from; to = to; step = 1; steps = steps } in
          let count : steps + 1 - 1 ≡ suc (steps - 1) = omega (arith, few.0) in
          rw (apart, fade_to)
            (rw (more, fade_to)
              (rw count (
                ap stop_fade (
                  rounds-finish (steps - 1) (record c { written = to }) d f w a b few.1
                    (omega arith) (omega (arith, few.0))))))
    ]

-- A fade between equal levels leaves everything but the fade alone.
pub fade_to_same :
    (c : Controller) (d : Device) (level : ℕ)
    → settle (fade_to c d level level) ≡ record c { fade = none }
unfolding settle fade_to stop_fade rounds
fade_to_same c d level = ground arith

-- The level that a dim goes to.
abbrev pub dim_target : Controller → Device → ℕ → ℕ
dim_target c d percent = min (target_for d.most c.min_percent percent) d.brightness

-- What the proofs about a device ask for: it answers, and its levels are `u32`s.
pub record IsUsable (c : Controller) (d : Device) : Type 0 where
  pub attached : c.sink ≡ some d
  pub readable : d.readable ≡ true
  pub writable : d.writable ≡ true
  pub small : d.brightness < 2 ^ 32
  pub short : c.transition < from_millis (16 * 2 ^ 31)

-- The controller once a dim has been decided on.
abbrev dimming : Controller → Device → Controller
dimming c d = record c { pre_dim = some d.brightness; state = Dimming.dimmed; fade = none }

dim_to_lem :
    (c : Controller) (d : Device) (percent : ℕ)
    → IsUsable c d
    → c.state ≡ Dimming.active
    → dim_to percent c
      ≡ fade_to (record (dimming c d) { sink = some d }) d d.brightness (dim_target c d percent)
unfolding dim_to
dim_to_lem c d percent u a = ground arith

-- A dim of an active controller run to its end, on a device that can be read and written and with
-- levels of a `u32`, in a transition of less than 2^31 steps: the level before it is kept, the
-- device shows the target, which is never above the level before, and the target counts as ours
-- unless it was there already.
pub dim_to-settle :
    (c : Controller) (d : Device) (percent : ℕ)
    → IsUsable c d
    → c.state ≡ Dimming.active
    → (settle (dim_to percent c) ≡ record c {
      sink = some (record d { brightness = dim_target c d percent });
      state = Dimming.dimmed;
      pre_dim = some d.brightness;
      written =
          (if d.brightness == dim_target c d percent then c.written else dim_target c d percent);
      fade = none;
    })
      × (dim_target c d percent ≤ d.brightness)
dim_to-settle c d percent u a = (
  ap settle (dim_to_lem c d percent u a)
      ∙ elim (Bool-cases (d.brightness == dim_target c d percent)) [
        | inl same ↦
            let e : dim_target c d percent ≡ d.brightness = ground arith in
            rw e
              (fade_to_same (record (dimming c d) { sink = some d }) d d.brightness ∙ ground arith)
        | inr apart ↦ rw apart (
            fade_to-settle (dimming c d) d d.brightness (dim_target c d percent) u.writable u.small
              (omega arith) u.short (ground arith))
      ],
  omega arith,
)

pub restore_lem :
    (c : Controller) (d : Device) (target : ℕ)
    → c.sink ≡ some d
    → d.readable ≡ true
    → c.state ≡ Dimming.dimmed
    → c.pre_dim ≡ some target
    → restore c ≡ (
        let back : Controller = record c {
          sink = some d;
          fade = none;
          pre_dim = none;
          state = Dimming.active;
        } in
        if d.brightness == c.written then fade_to back d d.brightness target else back)
unfolding restore
restore_lem c d target s r a p = ground arith

-- With no fade there is nothing to wait for.
pub stop_fade-settle :
    (c : Controller) → settle (record c { fade = none }) ≡ record c { fade = none }
unfolding settle stop_fade rounds
stop_fade-settle c = refl
