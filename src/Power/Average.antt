-- ===== src/Power/Average.antt =====
-- The average over the batteries.
use Prim.Native.String
use ampered.Prelude.{
  ℕ, ◌+◌, ◌*◌, ◌/◌, ◌≤◌, ◌<◌, ◌≡◌, refl, arith, min, Bool, true, false, List, [], ◌∷◌, Option, none,
  some, if◌then◌else◌, ◌==◌, All, All-append, Bool-cases, inl, inr, ◌⊎◌, subst, ap, ◌∙◌,
}
use ampered.Power.Supply.{
  Battery, Entry, total_weight, weighted_sum, weighted_capacity, scan_batteries, sort_batteries,
  insert_battery, snapshot, is_battery, battery_of, is_gt,
}

-- The average of the batteries lies between bounds that all of them keep.
weighted_sum_bounds :
    (lo hi : ℕ) (bs : List Battery)
    → All (λ (b : Battery). (lo ≤ b.capacity) × (b.capacity ≤ hi)) bs
    → (lo * total_weight bs ≤ weighted_sum bs) × (weighted_sum bs ≤ hi * total_weight bs)
unfolding total_weight weighted_sum
weighted_sum_bounds lo hi [] h = (omega arith, omega arith)
weighted_sum_bounds lo hi (b ∷ bs) h =
    let rest = weighted_sum_bounds lo hi bs h.1 in (grind (arith, rest), grind (arith, rest))

nearest_bounds :
    (lo hi sum total : ℕ)
    → 0 < total
    → lo * total ≤ sum
    → sum ≤ hi * total
    → (lo ≤ (sum + total / 2) / total) × ((sum + total / 2) / total ≤ hi)
nearest_bounds lo hi sum total p a b = (grind arith, grind arith)

-- Batteries as `snapshot` collects them: with a weight, and a charge of at most a hundred percent.
abbrev pub IsSound : Battery → Type 0
IsSound b = (0 < b.full) × (b.capacity ≤ 100)

abbrev Within : ℕ → ℕ → Battery → Type 0
Within lo hi b = (lo ≤ b.capacity) × (b.capacity ≤ hi)

-- The average of one battery or more, the first with a weight, is a percentage, and lies between
-- any two bounds up to a hundred that all the charges keep.
pub weighted_capacity_bounds :
    (lo hi : ℕ) (b : Battery) (bs : List Battery)
    → 0 < b.full
    → hi ≤ 100
    → All (Within lo hi) (b ∷ bs)
    → (r : ℕ) × (weighted_capacity (b ∷ bs) ≡ some r) × (lo ≤ r) × (r ≤ hi)
unfolding weighted_capacity
weighted_capacity_bounds lo hi b bs w h a =
    let total = total_weight (b ∷ bs) in
    let sum = weighted_sum (b ∷ bs) in
    let pos : 0 < total = unfold total_weight in omega arith in
    let bounds = weighted_sum_bounds lo hi (b ∷ bs) a in
    let near = nearest_bounds lo hi sum total pos bounds.0 bounds.1 in
    let some_weight : (total == 0) ≡ false = ground arith in
    (min ((sum + total / 2) / total) 100, rw some_weight, omega (arith, near), omega (arith, near))

battery_of-IsSound : (entry : Entry) (capacity : Option ℕ) → All IsSound (battery_of entry capacity)
unfolding battery_of
battery_of-IsSound entry none = tt
battery_of-IsSound entry (some c) = ((omega arith, omega arith), tt)

battery-IsSound :
    (entry : Entry) (test : Bool)
    → All IsSound (if test then battery_of entry entry.capacity else [])
battery-IsSound entry true = battery_of-IsSound entry entry.capacity
battery-IsSound entry false = tt

scan_batteries-IsSound : (entries : List Entry) → All IsSound (scan_batteries entries)
unfolding scan_batteries
scan_batteries-IsSound [] = tt
scan_batteries-IsSound (entry ∷ entries) =
    All-append IsSound (if is_battery entry then battery_of entry entry.capacity else [])
      (scan_batteries entries) (battery-IsSound entry (is_battery entry))
      (scan_batteries-IsSound entries)

insert-All {κ} :
    (P : Battery → Type κ) (b : Battery) (bs : List Battery)
    → P b
    → All P bs
    → All P (insert_battery b bs)
unfolding insert_battery
insert-All P b [] p h = (p, tt)
insert-All P b (c ∷ cs) p h = elim (Bool-cases (is_gt (String.compare b.name c.name))) [
  | inl before ↦ rw before (h.0, insert-All P b cs p h.1)
  | inr after ↦ rw after (p, h)
]

sort-All {κ} : (P : Battery → Type κ) (bs : List Battery) → All P bs → All P (sort_batteries bs)
unfolding sort_batteries
sort-All P [] h = tt
sort-All P (b ∷ bs) h = insert-All P b (sort_batteries bs) h.0 (sort-All P bs h.1)

insert_cons :
    (b : Battery) (bs : List Battery)
    → (c : Battery) × (cs : List Battery) × (insert_battery b bs ≡ c ∷ cs)
unfolding insert_battery
insert_cons b [] = (b, [], refl)
insert_cons b (c ∷ cs) = elim (Bool-cases (is_gt (String.compare b.name c.name))) [
  | inl before ↦ (c, insert_battery b cs, rw before refl)
  | inr after ↦ (b, c ∷ cs, rw after refl)
]

-- No battery, no charge; any battery, and the charge is a percentage.
abbrev Charge : List Battery → Option ℕ → Type 0
Charge bs charge = ((bs ≡ []) × (charge ≡ none)) ⊎ ((r : ℕ) × (charge ≡ some r) × (r ≤ 100))

weaken : (bs : List Battery) → All IsSound bs → All (Within 0 100) bs
weaken [] h = tt
weaken (b ∷ bs) h = ((omega arith, h.0.1), weaken bs h.1)

some_charge :
    (bs : List Battery) (c : Battery) (cs : List Battery)
    → bs ≡ c ∷ cs
    → All IsSound bs
    → (r : ℕ) × (weighted_capacity bs ≡ some r) × (r ≤ 100)
some_charge bs c cs e h =
    let sound = subst (All IsSound) e h in
    let (r, value, low, high) =
      weighted_capacity_bounds 0 100 c cs sound.0.0 (omega arith) (weaken (c ∷ cs) sound) in
    (r, ap weighted_capacity e ∙ value, high)

sort_batteries-Charge :
    (bs : List Battery) → All IsSound bs → Charge bs (weighted_capacity (sort_batteries bs))
unfolding sort_batteries weighted_capacity
sort_batteries-Charge [] h = inl (refl, refl)
sort_batteries-Charge (b ∷ bs) h =
    let (c, cs, e) = insert_cons b (sort_batteries bs) in
    inr (some_charge (sort_batteries (b ∷ bs)) c cs e (sort-All IsSound (b ∷ bs) h))

-- Whatever the directory holds, either there is no battery of the machine with a readable
-- capacity, and a snapshot reports no charge, or it reports a percentage.
snapshot-battery :
    (entries : List Entry)
    → ((scan_batteries entries ≡ []) × ((snapshot entries).battery ≡ none))
      ⊎ ((r : ℕ) × ((snapshot entries).battery ≡ some r) × (r ≤ 100))
unfolding snapshot
snapshot-battery entries =
    sort_batteries-Charge (scan_batteries entries) (scan_batteries-IsSound entries)
