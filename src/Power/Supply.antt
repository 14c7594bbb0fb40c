-- ===== src/Power/Supply.antt =====
-- Reading the power supply (src/power/supply.rs): the entries of sysfs, the average over the
-- batteries, the changes that become events, and the kernel's messages.
use Prim.Native.Nat.{Ordering}
use Prim.Native.String
use ampered.Prelude.{
  ℕ, ◌+◌, ◌*◌, ◌/◌, min, max, Bool, true, false, not, ◌&&◌, ◌||◌, List, [], ◌∷◌, ◌++◌, Option, none,
  some, String, str_eq, if◌then◌else◌, ◌==◌, same,
}
use ampered.Config.Durations.{from_secs}
use ampered.Core.Types.{PowerSnapshot, Event}

-- A battery: its name, its capacity in percent, and the design capacity as its weight.
pub record Battery : Type 0 where
  pub name : String
  pub capacity : ℕ
  pub full : ℕ

-- The sums are `u128`: no number of batteries with `u64` weights overflows them.
unfoldable pub total_weight : List Battery → ℕ
total_weight [] = 0
total_weight (b ∷ bs) = b.full + total_weight bs

unfoldable pub weighted_sum : List Battery → ℕ
weighted_sum [] = 0
weighted_sum (b ∷ bs) = b.capacity * b.full + weighted_sum bs

-- `weighted_capacity`: rounds to the nearest percent.
unfoldable pub weighted_capacity : List Battery → Option ℕ
weighted_capacity [] = none
weighted_capacity (b ∷ bs) =
    let total = total_weight (b ∷ bs) in
    if total == 0 then none else some (min ((weighted_sum (b ∷ bs) + total / 2) / total) 100)

-- Two readings of a battery's charge.
same_percent : Option ℕ → ℕ → Bool
same_percent none percent = false
same_percent (some old) percent = old == percent

battery_events : Option ℕ → Option ℕ → List Event
unfolding same_percent
battery_events old none = []
battery_events old (some percent) =
    if same_percent old percent then [] else Event.battery percent ∷ []

-- `diff`: only real changes become events.
unfoldable pub diff : PowerSnapshot → PowerSnapshot → List Event
unfolding battery_events
diff previous current =
    (if same previous.ac current.ac then [] else Event.ac_changed current.ac ∷ [])
    ++ battery_events previous.battery current.battery

-- What the supply task keeps beside the last snapshot: whether the source answered, and when it was asked
-- to read again out of turn.
pub record Supply : Type 0 where
  pub refreshes : List ℕ
  pub previous : PowerSnapshot
  pub latest : PowerSnapshot
  pub readable : Bool

-- One round of the task: `read`, and the events of the differences.
unfoldable pub poll : Option PowerSnapshot → Supply → Supply × List Event
poll none s = (record s { readable = false }, [])
poll (some snapshot) s =
    (record s { previous = snapshot; latest = snapshot; readable = true }, diff s.previous snapshot)

-- `recheck_after_resume`: two reads, after the delays of `RESUME_RECHECKS`.
unfoldable pub recheck_after_resume : ℕ → Supply → Supply
recheck_after_resume now s = record s {
  refreshes = s.refreshes ++ ((now + from_secs 2) ∷ ((now + from_secs 10) ∷ []));
}

-- The rounds of the task, and all their events.
unfoldable pub polls : List (Option PowerSnapshot) → Supply → Supply × List Event
polls [] s = (s, [])
polls (answer ∷ answers) s =
    let (s', events) = poll answer s in let (s'', more) = polls answers s' in (s'', events ++ more)

-- An entry of `/sys/class/power_supply`: the fields that are read from it, numbers as `parse` reads
-- them.
pub record Entry : Type 0 where
  pub name : String
  pub kind : Option String
  pub online : Option String
  pub scope : Option String
  pub capacity : Option ℕ
  pub energy_full : Option ℕ
  pub charge_full : Option ℕ

abbrev is_text : Option String → String → Bool
is_text none text = false
is_text (some s) text = str_eq s text

abbrev or_else : Option ℕ → Option ℕ → Option ℕ
or_else none other = other
or_else (some n) other = some n

abbrev or_one : Option ℕ → ℕ
or_one none = 1
or_one (some n) = n

-- The name, the capacity and the weight of a battery whose capacity can be read.
unfoldable pub battery_of : Entry → Option ℕ → List Battery
battery_of entry none = []
battery_of entry (some capacity) =
    record {
      name = entry.name;
      capacity = min capacity 100;
      full = max (or_one (or_else entry.energy_full entry.charge_full)) 1;
    }
    ∷ []

abbrev pub is_mains : Entry → Bool
is_mains entry = is_text entry.kind "Mains" || is_text entry.kind "USB"

-- A battery of the machine, and not of a peripheral.
abbrev pub is_battery : Entry → Bool
is_battery entry = is_text entry.kind "Battery" && not (is_text entry.scope "Device")

unfoldable pub scan_ac : List Entry → Bool
scan_ac [] = false
scan_ac (entry ∷ entries) =
    if is_mains entry && is_text entry.online "1" then true else scan_ac entries

unfoldable pub scan_batteries : List Entry → List Battery
unfolding battery_of
scan_batteries [] = []
scan_batteries (entry ∷ entries) =
    (if is_battery entry then battery_of entry entry.capacity else []) ++ scan_batteries entries

abbrev pub is_gt : Ordering → Bool
is_gt Ordering.gt = true
is_gt _ = false

-- `sort_by` the name.
unfoldable pub insert_battery : Battery → List Battery → List Battery
insert_battery b [] = b ∷ []
insert_battery b (c ∷ cs) =
    if is_gt (String.compare b.name c.name) then c ∷ insert_battery b cs else b ∷ (c ∷ cs)

unfoldable pub sort_batteries : List Battery → List Battery
unfolding insert_battery
sort_batteries [] = []
sort_batteries (b ∷ bs) = insert_battery b (sort_batteries bs)

names : List Battery → List String
names [] = []
names (b ∷ bs) = b.name ∷ names bs

-- `SysfsPowerSource::snapshot` of the entries that the directory holds.
unfoldable pub snapshot : List Entry → PowerSnapshot
unfolding names
snapshot entries =
    let batteries = sort_batteries (scan_batteries entries) in
    record {
      ac = scan_ac entries;
      battery = weighted_capacity batteries;
      batteries = names batteries;
    }
