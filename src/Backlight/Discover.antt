-- ===== src/Backlight/Discover.antt =====
-- The choice of the device (`SysfsBacklight` of src/backlight.rs). A directory of sysfs is its name, where
-- that is text, and the files that are read, where they can be read.
use Prim.Native.Nat.{Ordering}
use Prim.Native.String
use ampered.Prelude.{
  ℕ, Bool, true, false, ◌&&◌, ◌||◌, List, [], ◌∷◌, ◌++◌, not, Option, none, some, String, str_eq,
  trim, if◌then◌else◌, ◌==◌, ltb, ◌^◌,
}
use ampered.Wake.Rtc.{parse_u64}

pub record Directory : Type 0 where
  pub name : Option String
  pub max_brightness : Option String
  pub kind : Option String

pub record SysfsBacklight : Type 0 where
  pub name : String
  pub max : ℕ  -- u32

abbrev or_default : Option String → String
or_default none = ""
or_default (some s) = s

unfoldable pub usable_max : Option ℕ → Option ℕ
usable_max none = none
usable_max (some n) = if ltb n (2 ^ 32) && not (n == 0) then some n else none

unfoldable pub read_max : Option String → Option ℕ
unfolding usable_max
read_max none = none
read_max (some text) = usable_max (parse_u64 (trim text))

abbrev with_max : String → Option ℕ → Option SysfsBacklight
with_max name none = none
with_max name (some max) = some (record { name = name; max = max })

-- `SysfsBacklight::open`.
unfoldable pub open_device : Directory → Option SysfsBacklight
unfolding read_max
open_device d = with_max (or_default d.name) (read_max d.max_brightness)

-- The `raw` devices first: the others are often dummies.
unfoldable pub rank_of : Directory → ℕ
unfolding trim
rank_of d =
    let kind = trim (or_default d.kind) in
    if str_eq kind "raw" then 0 else if str_eq kind "firmware" then 1 else 2

pub record Candidate : Type 0 where
  pub rank : ℕ
  pub name : String
  pub backlight : SysfsBacklight

abbrev pub candidate : Directory → Option String → Option SysfsBacklight → List Candidate
candidate d none b = []
candidate d (some name) none = []
candidate d (some name) (some b) = record { rank = rank_of d; name = name; backlight = b } ∷ []

unfoldable pub candidates : List Directory → List Candidate
unfolding open_device rank_of
candidates [] = []
candidates (d ∷ rest) = candidate d d.name (open_device d) ++ candidates rest

abbrev pub is_gt : Ordering → Bool
is_gt Ordering.gt = true
is_gt _ = false

-- Whether a candidate is behind another by rank and name.
unfoldable pub is_behind : Candidate → Candidate → Bool
is_behind a b = ltb b.rank a.rank || (a.rank == b.rank && is_gt (String.compare a.name b.name))

unfoldable pub insert : Candidate → List Candidate → List Candidate
unfolding is_behind
insert c [] = c ∷ []
insert c (d ∷ rest) =
    let later = insert c rest in if is_behind c d then d ∷ later else c ∷ (d ∷ rest)

-- `sort_by` is stable.
unfoldable pub sort : List Candidate → List Candidate
unfolding insert
sort [] = []
sort (c ∷ rest) = insert c (sort rest)

abbrev pub first_of : List Candidate → Option SysfsBacklight
first_of [] = none
first_of (c ∷ rest) = some c.backlight

unfoldable pub open_at : Option Directory → Option SysfsBacklight
unfolding open_device
open_at none = none
open_at (some d) = open_device d

unfoldable pub best_of : Option (List Directory) → Option SysfsBacklight
unfolding candidates sort
best_of none = none
best_of (some dirs) = first_of (sort (candidates dirs))

-- `SysfsBacklight::discover`: `at` gives the directory of a path below the root.
unfoldable pub discover :
    (String → Option Directory) → Option (List Directory) → String → Option SysfsBacklight
unfolding open_at best_of
discover at dirs device = if str_eq device "auto" then best_of dirs else open_at (at device)
