-- ===== src/Backlight/Scale.antt =====
-- Bounds of the brightness levels.
use native.Mathlib.Nat.{le_refl}
use ampered.Prelude.{
  leb, if◌then◌else◌, Bool-cases, inl, inr, ℕ, ◌+◌, ◌-◌, ◌*◌, ◌/◌, ◌^◌, ◌≤◌, ◌<◌, ◌≡◌, arith, min,
  max,
}
use ampered.Backlight.Levels.{raw_from_percent, to_percent, interpolate, target_for}

-- A percentage of the maximum, up to a hundred, does not wrap, and is at most the maximum.
pub raw_from_percent-le :
    (most percent : ℕ)
    → most < 2 ^ 32
    → percent ≤ 100
    → (raw_from_percent most percent ≡ most * percent / 100)
      × (raw_from_percent most percent ≤ most)
unfolding raw_from_percent
raw_from_percent-le most percent h k = grind arith

-- On a device whose maximum is a `u32`, with a floor of at most a hundred percent, the target of a
-- dim lies between the floor and the maximum.
pub target_for_bounds :
    (most min_percent percent : ℕ)
    → most < 2 ^ 32
    → min_percent ≤ 100
    → (raw_from_percent most min_percent ≤ target_for most min_percent percent)
      × (target_for most min_percent percent ≤ most)
unfolding target_for
target_for_bounds most min_percent percent h k =
    omega (arith, raw_from_percent-le most min_percent h k)

pub to_percent-le : (raw most : ℕ) → to_percent raw most ≤ 100
unfolding to_percent
to_percent-le raw most = ground arith

product_small : (d step : ℕ) → d < 2 ^ 32 → step < 2 ^ 31 → d * step < 2 ^ 63
product_small d step h k = grind arith

mul-div : (d n : ℕ) → 0 < n → d * n / n ≡ d
mul-div d n h = grind arith

part_le : (d step steps : ℕ) → step ≤ steps → 0 < steps → d * step / steps ≤ d
part_le d step steps h p = grind arith

-- How a fade goes down and up while the product does not overflow.
interpolate_eq :
    (from to step steps : ℕ)
    → from < 2 ^ 32
    → to < 2 ^ 32
    → 0 < steps
    → step ≤ steps
    → steps < 2 ^ 31
    → interpolate from to step steps ≡ (
        if leb from to
        then from + (to - from) * step / steps
        else from - (from - to) * step / steps)
unfolding interpolate
interpolate_eq from to step steps f t p h s = elim (Bool-cases (leb from to)) [
  | inl up ↦ rw up (
      ground (
        arith,
        product_small (to - from) step (omega arith) (omega arith),
        part_le (to - from) step steps h p,
      ))
  | inr down ↦ rw down (
      ground (
        arith,
        product_small (from - to) step (omega arith) (omega arith),
        part_le (from - to) step steps h p,
      ))
]

-- For levels of a `u32` and less than 2^31 steps, every step of a fade lies between its two
-- levels, and the last one is the level that it goes to: no machine integer wraps around.
pub interpolate_bounds :
    (from to step steps : ℕ)
    → from < 2 ^ 32
    → to < 2 ^ 32
    → 0 < steps
    → step ≤ steps
    → steps < 2 ^ 31
    → (min from to ≤ interpolate from to step steps)
      × (interpolate from to step steps ≤ max from to)
      × (interpolate from to steps steps ≡ to)
interpolate_bounds from to step steps f t p h s =
    let at = interpolate_eq from to step steps f t p h s in
    let last = interpolate_eq from to steps steps f t p (le_refl steps) s in
    (
      ground (arith, at, part_le (to - from) step steps h p, part_le (from - to) step steps h p),
      ground (arith, at, part_le (to - from) step steps h p, part_le (from - to) step steps h p),
      ground (arith, last, mul-div (to - from) steps p, mul-div (from - to) steps p),
    )
