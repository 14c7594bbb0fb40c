-- ===== src/Core/Low.antt =====
-- The low-battery flag and its hysteresis.
use ampered.Prelude.{
  ℕ, ◌≤◌, ◌<◌, ◌≡◌, refl, ◌⊎◌, ◌↔◌, Bool, true, false, List, [], ◌∷◌, some, arith, All,
}
use ampered.Core.Modes.{compute_low, clears_at}

-- A reading makes the flag, exactly when it is at the threshold or below, or below the level that
-- clears the flag while the flag is set.
pub compute_low_iff :
    (threshold percent : ℕ) (low : Bool)
    → (compute_low threshold low (some percent) ≡ true)
      ↔ ((percent ≤ threshold) ⊎ ((percent < clears_at threshold) × (low ≡ true)))
unfolding compute_low
compute_low_iff threshold percent low = (λ h. ground arith, λ h. ground arith)

-- With a threshold of 100 every reading of a percentage leaves the flag set.
threshold_100-stays_low :
    (low : Bool) (percent : ℕ) → percent ≤ 100 → compute_low 100 low (some percent) ≡ true
unfolding compute_low
threshold_100-stays_low low percent h = ground arith

-- The flag after a list of readings.
abbrev pub readings : ℕ → Bool → List ℕ → Bool
readings threshold low [] = low
readings threshold low (percent ∷ rest) =
    readings threshold (compute_low threshold low (some percent)) rest

-- Readings strictly between the threshold and the level that clears the flag never change it, so a
-- charge that wavers there does not switch the mode back and forth.
readings-band :
    (threshold : ℕ) (low : Bool) (percents : List ℕ)
    → All (λ percent. (threshold < percent) × (percent < clears_at threshold)) percents
    → readings threshold low percents ≡ low
unfolding compute_low
readings-band threshold low [] h = refl
readings-band threshold true (percent ∷ rest) h =
    ground (arith, readings-band threshold true rest h.1)
readings-band threshold false (percent ∷ rest) h =
    ground (arith, readings-band threshold false rest h.1)
