-- ===== src/Tests/Panels.antt =====
-- The choice of the backlight device at a concrete directory (src/backlight.rs).
use ampered.Prelude.{
  ◌≡◌, ◌⊎◌, true, false, List, [], ◌∷◌, Option, none, some, String, str_eq, refl, if◌then◌else◌,
}
use ampered.Backlight.Discover.{Directory, SysfsBacklight, discover, open_at}
use ampered.Wake.Rtc.{parse_u64}
use ampered.Backlight.Best.{IsBest, AreUnusable, discover-IsBest}

abbrev acpi : Directory
acpi = record { name = some "acpi_video0"; max_brightness = some "15\n"; kind = some "firmware\n" }

abbrev intel : Directory
intel = record {
  name = some "intel_backlight";
  max_brightness = some "1200\n";
  kind = some "raw\n";
}

-- A dummy that reports no range.
abbrev dummy : Directory
dummy = record { name = some "dummy"; max_brightness = some "0\n"; kind = some "raw\n" }

abbrev panels : List Directory
panels = dummy ∷ (acpi ∷ (intel ∷ []))

abbrev at : String → Option Directory
at name = if str_eq name "intel_backlight" then some intel else none

discover-IsBest_example :
    (str_eq "auto" "auto" ≡ false) × (discover at (some panels) "auto" ≡ open_at (at "auto"))
    ⊎ ((str_eq "auto" "auto" ≡ true)
        × (((discover at (some panels) "auto" ≡ none) × AreUnusable panels)
            ⊎ ((b : SysfsBacklight) × ((discover at (some panels) "auto" ≡ some b)
                  × IsBest panels b))))
discover-IsBest_example = discover-IsBest at panels "auto"

chosen : discover at (some panels) "auto" ≡ some (record { name = "intel_backlight"; max = 1200 })
unfolding discover parse_u64
chosen = refl
