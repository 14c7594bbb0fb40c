-- ===== src/Core/Inhibits.antt =====
-- Lists of the inhibitors created over IPC: their numbers and their lifetimes.
use ampered.Prelude.{
  true, ℕ, ◌+◌, ◌<◌, ◌≤◌, ◌≡◌, refl, ◌≢◌, false, arith, List, [], ◌∷◌, ◌++◌, Bool-cases, ◌==◌, All,
  All-append, inl, inr,
}
use ampered.Ipc.{max_inhibit_ttl}
use ampered.Core.Types.{Inhibit}
use ampered.Core.Events.{has_inhibit, remove_inhibit}

abbrev pub Distinct : List Inhibit → Type 0
Distinct [] = Unit {0}
Distinct (i ∷ rest) = All (λ (j : Inhibit). i.id ≢ j.id) rest × Distinct rest

abbrev pub IsLimited : Inhibit → Type 0
IsLimited i = (0 < i.ttl) × (i.ttl ≤ max_inhibit_ttl)

-- The numbers are distinct and below the next one, and every lifetime is positive and limited.
pub record IsNumbered (next : ℕ) (l : List Inhibit) : Type 0 where
  pub below : All (λ (i : Inhibit). i.id < next) l
  pub distinct : Distinct l
  pub limited : All IsLimited l

remove-All {κ} :
    (P : Inhibit → Type κ) (id : ℕ) (l : List Inhibit) → All P l → All P (remove_inhibit id l)
unfolding remove_inhibit
remove-All P id [] h = h
remove-All P id (i ∷ rest) h = elim (Bool-cases (i.id == id)) [
  | inl e ↦ rw e h.1
  | inr e ↦ rw e (h.0, remove-All P id rest h.1)
]

remove-Distinct : (id : ℕ) (l : List Inhibit) → Distinct l → Distinct (remove_inhibit id l)
unfolding remove_inhibit
remove-Distinct id [] h = h
remove-Distinct id (i ∷ rest) h = elim (Bool-cases (i.id == id)) [
  | inl e ↦ rw e h.1
  | inr e ↦ rw e (remove-All (λ j. i.id ≢ j.id) id rest h.0, remove-Distinct id rest h.1)
]

pub remove-IsNumbered :
    (next id : ℕ) (l : List Inhibit) → IsNumbered next l → IsNumbered next (remove_inhibit id l)
remove-IsNumbered next id l v = record {
  below = remove-All (λ i. i.id < next) id l v.below;
  distinct = remove-Distinct id l v.distinct;
  limited = remove-All IsLimited id l v.limited;
}

All-map {κ μ} :
    (P : Inhibit → Type κ) (Q : Inhibit → Type μ) (l : List Inhibit)
    → ((i : Inhibit) → P i → Q i)
    → All P l
    → All Q l
All-map P Q [] f h = tt
All-map P Q (i ∷ rest) f h = (f i h.0, All-map P Q rest f h.1)

append-Distinct :
    (l : List Inhibit) (new : Inhibit)
    → All (λ (i : Inhibit). i.id < new.id) l
    → Distinct l
    → Distinct (l ++ new ∷ [])
append-Distinct [] new b d = (tt, tt)
append-Distinct (i ∷ rest) new b d = (
  All-append (λ j. i.id ≢ j.id) rest (new ∷ []) d.0 ((omega arith), tt),
  append-Distinct rest new b.1 d.1,
)

pub append-IsNumbered :
    (next : ℕ) (l : List Inhibit) (new : Inhibit)
    → new.id ≡ next
    → IsLimited new
    → IsNumbered next l
    → IsNumbered (next + 1) (l ++ new ∷ [])
append-IsNumbered next l new e t v = record {
  below =
      All-append (λ i. i.id < next + 1) l (new ∷ [])
        (All-map (λ i. i.id < next) (λ i. i.id < next + 1) l (λ i h. omega arith) v.below)
        (omega arith, tt);
  distinct =
      append-Distinct l new
        (All-map (λ i. i.id < next) (λ i. i.id < new.id) l (λ i h. omega arith) v.below) v.distinct;
  limited = All-append IsLimited l (new ∷ []) v.limited (t, tt);
}

pub has-remove :
    (id : ℕ) (l : List Inhibit) → Distinct l → has_inhibit id (remove_inhibit id l) ≡ false
unfolding has_inhibit remove_inhibit
has-remove id [] d = refl
has-remove id (i ∷ rest) d = elim (Bool-cases (i.id == id)) [
  | inl e ↦ rw e (
      has-other id rest
        (All-map (λ j. i.id ≢ j.id) (λ j. j.id ≢ id) rest (λ j h. ground arith) d.0))
  | inr e ↦ rw (e, has_inhibit) (rw e (has-remove id rest d.1))
]
  where
    has-other :
        (id' : ℕ) (l : List Inhibit)
        → All (λ (j : Inhibit). j.id ≢ id') l
        → has_inhibit id' l ≡ false
    has-other id' [] h = refl
    has-other id' (j ∷ rest') h = ground (arith, has-other id' rest' h.1)

pub remove-append :
    (l : List Inhibit) (new : Inhibit)
    → All (λ (i : Inhibit). i.id < new.id) l
    → remove_inhibit new.id (l ++ new ∷ []) ≡ l
unfolding remove_inhibit
remove-append [] new h = ground arith
remove-append (i ∷ rest) new h = ground (arith, remove-append rest new h.1)

pub has-append : (l : List Inhibit) (new : Inhibit) → has_inhibit new.id (l ++ new ∷ []) ≡ true
unfolding has_inhibit
has-append [] new = ground arith
has-append (i ∷ rest) new = ground (arith, has-append rest new)
