-- ===== src/Backlight/RoundTrip.antt =====
-- A dim and the restore after it, each run to its end.

use ampered.Prelude.{
  ℕ, ◌^◌, ◌<◌, ◌≡◌, ◌≢◌, refl, ap, arith, none, some, ◌==◌, true, false, Bool-cases, inl, inr, ◌∙◌,
}
use ampered.Backlight.Controller.{Controller, Device, Dimming, settle, restore, dim_to}
use ampered.Backlight.Restore.{
  IsUsable, dim_target, dim_to-settle, restore_lem, fade_to-settle, fade_to_same, stop_fade-settle,
}

-- A restore finds the level that it left: the level before the dim comes back.
restore-ours :
    (c : Controller) (d : Device) (target : ℕ)
    → IsUsable c d
    → c.state ≡ Dimming.dimmed
    → c.pre_dim ≡ some target
    → target < 2 ^ 32
    → d.brightness ≡ c.written
    → d.brightness ≢ target
    → settle (restore c) ≡ record c {
      sink = some (record d { brightness = target });
      state = Dimming.active;
      pre_dim = none;
      written = target;
      fade = none;
    }
restore-ours c d target u s p t e n =
    let ours : (d.brightness == c.written) ≡ true = ground arith in
    ap settle (restore_lem c d target u.attached u.readable s p)
    ∙ rw ours (
        fade_to-settle (record c { fade = none; pre_dim = none; state = Dimming.active }) d
          d.brightness target u.writable u.small t u.short n)

-- A restore, from the dimmed state, that finds on a readable device another level than the one
-- last written respects it: the device keeps its level, and the level before the dim is forgotten.
pub restore-external :
    (c : Controller) (d : Device) (target : ℕ)
    → c.sink ≡ some d
    → d.readable ≡ true
    → c.state ≡ Dimming.dimmed
    → c.pre_dim ≡ some target
    → d.brightness ≢ c.written
    → settle (restore c)
      ≡ record c { sink = some d; state = Dimming.active; pre_dim = none; fade = none }
restore-external c d target s r a p n =
    let theirs : (d.brightness == c.written) ≡ false = ground arith in
    ap settle (restore_lem c d target s r a p)
    ∙ rw theirs
        (stop_fade-settle (record c { sink = some d; pre_dim = none; state = Dimming.active }))

-- Where the level before the dim is the one that the device shows, nothing is written.
restore-same :
    (c : Controller) (d : Device)
    → c.sink ≡ some d
    → d.readable ≡ true
    → c.state ≡ Dimming.dimmed
    → c.pre_dim ≡ some d.brightness
    → settle (restore c)
      ≡ record c { sink = some d; state = Dimming.active; pre_dim = none; fade = none }
restore-same c d s r a p = elim (Bool-cases (d.brightness == c.written)) [
  | inl ours ↦
      ap settle (restore_lem c d d.brightness s r a p)
      ∙ rw ours (
          fade_to_same
            (record c { sink = some d; fade = none; pre_dim = none; state = Dimming.active }) d
            d.brightness)
  | inr theirs ↦ restore-external c d d.brightness s r a p (ground arith)
]

-- The controller after a dim that is run to its end.
abbrev dimmed_by : Controller → Device → ℕ → ℕ → Controller
dimmed_by c d target written = record c {
  sink = some (record d { brightness = target });
  state = Dimming.dimmed;
  pre_dim = some d.brightness;
  written = written;
  fade = none;
}

-- With an active controller, a device that can be read and written, levels of a `u32` and a
-- transition of less than 2^31 steps: if nobody touches the device in between, a dim and a
-- restore, each run to its end, leave the device as it was, and the controller active with nothing
-- to restore.
pub restore-dim_to :
    (c : Controller) (d : Device) (percent : ℕ)
    → IsUsable c d
    → c.state ≡ Dimming.active
    → let c' = settle (restore (settle (dim_to percent c))) in
      (c'.sink ≡ some d) × (c'.state ≡ Dimming.active) × (c'.pre_dim ≡ none)
restore-dim_to c d percent u a =
    let target = dim_target c d percent in
    elim (Bool-cases (d.brightness == target)) [
      | inl same ↦
          let e : target ≡ d.brightness = ground arith in
          let c₁ = dimmed_by c d d.brightness c.written in
          let first : settle (dim_to percent c) ≡ c₁ =
            (dim_to-settle c d percent u a).0 ∙ rw (same, e) in
          rw first (rw (restore-same c₁ d refl u.readable refl refl) (refl, refl, refl))
      | inr apart ↦
          let c₁ = dimmed_by c d target target in
          let d₁ : Device = record d { brightness = target } in
          let first : settle (dim_to percent c) ≡ c₁ =
            (dim_to-settle c d percent u a).0 ∙ rw apart in
          let usable : IsUsable c₁ d₁ = record {
            attached = refl;
            readable = u.readable;
            writable = u.writable;
            small = omega (arith, u.small);
            short = u.short;
          } in
          rw first (
            rw (restore-ours c₁ d₁ d.brightness usable refl refl u.small refl (ground arith))
              (refl, refl, refl))
    ]

-- On a device as in the round trip: where a dim finds it at its target, or below, the level that
-- counts as ours stays the one of an earlier write. If the user then sets the device to just that
-- level, the restore takes it for ours and overwrites it by the level before the dim.
pub restore-overrides :
    (c : Controller) (d : Device) (percent : ℕ)
    → IsUsable c d
    → c.state ≡ Dimming.active
    → dim_target c d percent ≡ d.brightness
    → c.written < 2 ^ 32
    → c.written ≢ d.brightness
    → let dimmed = settle (dim_to percent c) in
      let touched : Controller = record dimmed {
        sink = some (record d { brightness = c.written });
      } in
      (settle (restore touched)).sink ≡ some d
restore-overrides c d percent u a e w n =
    let same : (d.brightness == dim_target c d percent) ≡ true = ground arith in
    let first : settle (dim_to percent c) ≡ dimmed_by c d d.brightness c.written =
      (dim_to-settle c d percent u a).0 ∙ rw (same, e) in
    let touched = dimmed_by c (record d { brightness = d.brightness }) c.written c.written in
    let theirs : Device = record d { brightness = c.written } in
    let usable : IsUsable touched theirs = record {
      attached = refl;
      readable = u.readable;
      writable = u.writable;
      small = w;
      short = u.short;
    } in
    rw first (
      ap (λ (k : Controller). k.sink)
        (restore-ours touched theirs d.brightness usable refl refl u.small refl n))
