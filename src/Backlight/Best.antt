-- ===== src/Backlight/Best.antt =====
-- Which device is chosen (src/backlight.rs).
use ampered.Prelude.{
  ℕ, ◌≤◌, ◌≡◌, ◌⊎◌, refl, arith, true, false, List, [], ◌∷◌, ◌++◌, Option, none, some, String,
  str_eq, if◌then◌else◌, All, All-append, Bool-cases, inl, inr, subst, sym,
}
use ampered.Backlight.Discover.{
  Directory, SysfsBacklight, Candidate, candidate, candidates, open_device, rank_of, is_behind,
  insert, sort, first_of, best_of, discover, open_at,
}

-- The first has the least rank.
abbrev Leads : List Candidate → Type 0
Leads [] = Unit {0}
Leads (c ∷ rest) = All (λ d. c.rank ≤ d.rank) rest

behind-rank : (c d : Candidate) → is_behind c d ≡ true → d.rank ≤ c.rank
unfolding is_behind
behind-rank c d h = ground arith

ahead-rank : (c d : Candidate) → is_behind c d ≡ false → c.rank ≤ d.rank
unfolding is_behind
ahead-rank c d h = ground arith

All-map :
    {A : Type 0} (P Q : A → Type 0) → ((x : A) → P x → Q x) → (xs : List A) → All P xs → All Q xs
All-map P Q f [] h = h
All-map P Q f (x ∷ xs) h = (f x h.0, All-map P Q f xs h.1)

abbrev pub Any : (Directory → Type 0) → List Directory → Type 0
Any P [] = ⊥
Any P (d ∷ rest) = P d ⊎ Any P rest

module _ (P : Candidate → Type 0) where
  insert-All : (c : Candidate) (ds : List Candidate) → P c → All P ds → All P (insert c ds)
  unfolding insert
  insert-All c [] p h = (p, h)
  insert-All c (d ∷ rest) p h = elim (Bool-cases (is_behind c d)) [
    | inl b ↦ rw b (h.0, insert-All c rest p h.1)
    | inr a ↦ rw a (p, h)
  ]

  All-insert : (c : Candidate) (ds : List Candidate) → All P (insert c ds) → P c × All P ds
  unfolding insert
  All-insert c [] h = (h.0, h.1)
  All-insert c (d ∷ rest) h = elim (Bool-cases (is_behind c d)) [
    | inl b ↦
        let h' : All P (d ∷ insert c rest) =
          subst (λ t. All P (if t then d ∷ insert c rest else c ∷ (d ∷ rest))) b h in
        let both = All-insert c rest h'.1 in (both.0, (h'.0, both.1))
    | inr a ↦ subst (λ t. All P (if t then d ∷ insert c rest else c ∷ (d ∷ rest))) a h
  ]

  sort-All : (cs : List Candidate) → All P cs → All P (sort cs)
  unfolding sort
  sort-All [] h = h
  sort-All (c ∷ rest) h = insert-All c (sort rest) h.0 (sort-All rest h.1)

  All-sort : (cs : List Candidate) → All P (sort cs) → All P cs
  unfolding sort
  All-sort [] h = h
  All-sort (c ∷ rest) h = let both = All-insert c (sort rest) h in (both.0, All-sort rest both.1)

insert-Leads : (c : Candidate) (ds : List Candidate) → Leads ds → Leads (insert c ds)
unfolding insert
insert-Leads c [] h = tt
insert-Leads c (d ∷ rest) h = elim (Bool-cases (is_behind c d)) [
  | inl b ↦ rw b (insert-All (λ e. d.rank ≤ e.rank) c rest (behind-rank c d b) h)
  | inr a ↦ rw a (
    ahead-rank c d a,
    All-map (λ e. d.rank ≤ e.rank) (λ e. c.rank ≤ e.rank)
        (λ e le. let first = ahead-rank c d a in omega arith) rest h,
  )
]

sort-Leads : (cs : List Candidate) → Leads (sort cs)
unfolding sort
sort-Leads [] = tt
sort-Leads (c ∷ rest) = insert-Leads c (sort rest) (sort-Leads rest)

-- A candidate comes from one of the directories.
pub record IsFrom (d : Directory) (c : Candidate) : Type 0 where
  pub opens : open_device d ≡ some c.backlight
  pub ranks : rank_of d ≡ c.rank
  pub named : d.name ≡ some c.name

candidate-IsFrom :
    (d : Directory) (name : Option String) (b : Option SysfsBacklight)
    → d.name ≡ name
    → open_device d ≡ b
    → All (IsFrom d) (candidate d name b)
candidate-IsFrom d none b hn hb = tt
candidate-IsFrom d (some name) none hn hb = tt
candidate-IsFrom d (some name) (some b) hn hb =
    (record { opens = hb; ranks = refl; named = hn }, tt)

candidates-From : (dirs : List Directory) → All (λ c. Any (λ d. IsFrom d c) dirs) (candidates dirs)
unfolding candidates
candidates-From [] = tt
candidates-From (d ∷ rest) =
    All-append (λ c. Any (λ d'. IsFrom d' c) (d ∷ rest)) (candidate d d.name (open_device d))
      (candidates rest)
      (All-map (IsFrom d) (λ c. Any (λ d'. IsFrom d' c) (d ∷ rest)) (λ c h. inl h)
        (candidate d d.name (open_device d)) (candidate-IsFrom d d.name (open_device d) refl refl))
      (All-map (λ c. Any (λ d'. IsFrom d' c) rest) (λ c. Any (λ d'. IsFrom d' c) (d ∷ rest))
        (λ c h. inr h) (candidates rest) (candidates-From rest))

All-right : (P : Candidate → Type 0) (xs ys : List Candidate) → All P (xs ++ ys) → All P ys
All-right P [] ys h = h
All-right P (x ∷ xs) ys h = All-right P xs ys h.1

-- Whatever holds of every candidate holds of what comes from any directory, as far as the rank tells.
candidates-ranks :
    (Q : ℕ → Type 0) (dirs : List Directory)
    → All (λ c. Q c.rank) (candidates dirs)
    → All (λ d. (e : Candidate) → IsFrom d e → Q e.rank) dirs
unfolding candidates
candidates-ranks Q [] h = tt
candidates-ranks Q (d ∷ rest) h =
    let Ranked : Candidate → Type 0 = λ c. Q c.rank in
    (
      (λ e f.
          let named =
            subst (λ n. All Ranked (candidate d n (open_device d) ++ candidates rest)) f.named h in
          let opened =
            subst (λ b. All Ranked (candidate d (some e.name) b ++ candidates rest)) f.opens
              named in
          subst Q f.ranks opened.0),
      candidates-ranks Q rest
          (All-right Ranked (candidate d d.name (open_device d)) (candidates rest) h),
    )

-- The device is of a directory and has the least rank of all that could be opened.
pub IsBest : List Directory → SysfsBacklight → Type 0
IsBest dirs b =
    (c : Candidate) × ((c.backlight ≡ b)
      × (Any (λ d. IsFrom d c) dirs
          × All (λ d. (e : Candidate) → IsFrom d e → c.rank ≤ e.rank) dirs))

pub AreUnusable : List Directory → Type 0
AreUnusable dirs = All (λ d. (e : Candidate) → IsFrom d e → ⊥) dirs

first_of-sort :
    (dirs : List Directory) (cs : List Candidate)
    → cs ≡ sort (candidates dirs)
    → ((first_of cs ≡ none) × AreUnusable dirs)
      ⊎ ((b : SysfsBacklight) × ((first_of cs ≡ some b) × IsBest dirs b))
unfolding IsBest AreUnusable
first_of-sort dirs [] h = inl (
  refl,
  candidates-ranks (λ r. ⊥) dirs (All-sort (λ c. ⊥) (candidates dirs) (subst (All (λ c. ⊥)) h tt)),
)
first_of-sort dirs (c ∷ rest) h =
    let From : Candidate → Type 0 = λ e. Any (λ d. IsFrom d e) dirs in
    let from = subst (All From) (sym h) (sort-All From (candidates dirs) (candidates-From dirs)) in
    let leads = subst Leads (sym h) (sort-Leads (candidates dirs)) in
    let least : All (λ e. c.rank ≤ e.rank) (c ∷ rest) = (omega arith, leads) in
    inr (
      c.backlight,
      (
        refl,
        (
          c,
          (
            refl,
            (
              from.0,
              candidates-ranks (λ r. c.rank ≤ r) dirs
                  (All-sort (λ e. c.rank ≤ e.rank) (candidates dirs)
                    (subst (All (λ e. c.rank ≤ e.rank)) h least)),
            ),
          ),
        ),
      ),
    )

-- With `auto`, a device is chosen exactly if some directory with a name holds a usable one, and then it is
-- of such a directory and no other one has a lower rank; any other setting takes the device of that name,
-- if it is usable.
pub discover-IsBest :
    (at : String → Option Directory) (dirs : List Directory) (device : String)
    → (str_eq device "auto" ≡ false) × (discover at (some dirs) device ≡ open_at (at device))
      ⊎ ((str_eq device "auto" ≡ true)
          × (((discover at (some dirs) device ≡ none) × AreUnusable dirs)
              ⊎ ((b : SysfsBacklight) × ((discover at (some dirs) device ≡ some b)
                    × IsBest dirs b))))
unfolding discover best_of
discover-IsBest at dirs device = elim (Bool-cases (str_eq device "auto")) [
  | inl auto ↦ inr (auto, rw auto (first_of-sort dirs (sort (candidates dirs)) refl))
  | inr named ↦ inl (named, rw named refl)
]
