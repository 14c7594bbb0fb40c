-- ===== src/Backlight/Levels.antt =====
-- Brightness levels (src/backlight.rs): percentages of the maximum and the steps of a fade. A raw
-- level is a `u32`; the products of a fade are `i64`, with the wrap-around written out.
use ampered.Prelude.{ℕ, ◌+◌, ◌-◌, ◌*◌, ◌/◌, ◌%◌, ◌^◌, min, max, if◌then◌else◌, leb, ltb, ◌==◌}

abbrev pub u32 : ℕ → ℕ
u32 n = n % 2 ^ 32

unfoldable pub raw_from_percent : ℕ → ℕ → ℕ
raw_from_percent most percent = u32 (most * percent / 100)

unfoldable pub to_percent : ℕ → ℕ → ℕ
to_percent raw most = if most == 0 then 0 else min ((raw * 100 + most / 2) / most) 100

-- The bits of the `i64` product of a difference and a step.
product_bits : ℕ → ℕ → ℕ → ℕ
product_bits from to step =
    if leb from to
    then (to - from) * step % 2 ^ 64
    else (2 ^ 64 - (from - to) * step % 2 ^ 64) % 2 ^ 64

-- `from` plus the quotient of a signed product, as a `u32`; the division rounds towards zero.
plus_quotient : ℕ → ℕ → ℕ → ℕ
plus_quotient from bits steps =
    if ltb bits (2 ^ 63)
    then u32 (from + bits / steps)
    else u32 (from + 2 ^ 64 - (2 ^ 64 - bits) / steps)

unfoldable pub interpolate : ℕ → ℕ → ℕ → ℕ → ℕ
unfolding product_bits plus_quotient
interpolate from to step steps = plus_quotient from (product_bits from to step) steps

-- `target_for`: never below the floor, never above the maximum.
unfoldable pub target_for : ℕ → ℕ → ℕ → ℕ
unfolding raw_from_percent
target_for most min_percent percent =
    min (max (raw_from_percent most percent) (raw_from_percent most min_percent)) most
