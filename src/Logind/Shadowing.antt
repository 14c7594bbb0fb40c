-- ===== src/Logind/Shadowing.antt =====
-- Which drop-in counts (src/logind_conf.rs).
use ampered.Prelude.{
  ◌≡◌, refl, false, List, [], ◌∷◌, Option, none, some, String, str_eq, if◌then◌else◌, is_some,
  arith, eq_iff, Bool-cases, inl, inr, ◌∙◌,
}
use ampered.Logind.Files.{
  File, Dir, find_file, insert_sorted, or_insert, is_conf, add_drop_ins, drop_ins,
}

abbrev or_first : Option File → Option File → Option File
or_first none other = other
or_first (some file) other = some file

find-insert_sorted :
    (name other : String) (file : File) (files : List (String × File))
    → is_some (find_file name files) ≡ false
    → find_file other (insert_sorted name file files)
      ≡ or_first (find_file other files) (if str_eq name other then some file else none)
unfolding find_file insert_sorted
find-insert_sorted name other file [] h = ground arith
find-insert_sorted name other file ((n, f) ∷ rest) h = ground (
  arith,
  eq_iff n name,
  eq_iff n other,
  eq_iff name other,
  find-insert_sorted name other file rest,
)

find-or_insert :
    (name other : String) (file : File) (files : List (String × File))
    → find_file other (or_insert name file files)
      ≡ or_first (find_file other files) (if str_eq name other then some file else none)
unfolding or_insert
find-or_insert name other file files = elim (Bool-cases (is_some (find_file name files))) [
  | inl taken ↦ rw taken (ground (arith, eq_iff name other))
  | inr fresh ↦ rw fresh (find-insert_sorted name other file files fresh)
]

-- The first file of a name, of those that end in `.conf`.
abbrev pub named : String → List (String × File) → Option File
named name files = if is_conf name then find_file name files else none

find-add_drop_ins :
    (name : String) (more files : List (String × File))
    → find_file name (add_drop_ins more files) ≡ or_first (find_file name files) (named name more)
unfolding add_drop_ins find_file
find-add_drop_ins name [] files = ground arith
find-add_drop_ins name ((n, f) ∷ rest) files = elim (Bool-cases (is_conf n)) [
  | inl conf ↦ rw conf (
      find-add_drop_ins name rest (or_insert n f files)
      ∙ rw (find-or_insert n name f files) (ground (arith, eq_iff n name)))
  | inr other ↦ rw other (find-add_drop_ins name rest files ∙ ground (arith, eq_iff n name))
]

abbrev pub first_named : String → List Dir → Option File
first_named name [] = none
first_named name (dir ∷ dirs) = or_first (named name dir.drop_ins) (first_named name dirs)

or_first_assoc : (a b c : Option File) → or_first (or_first a b) c ≡ or_first a (or_first b c)
or_first_assoc none b c = refl
or_first_assoc (some file) b c = refl

find-drop_ins_from :
    (name : String) (dirs : List Dir) (files : List (String × File))
    → find_file name (drop_ins dirs files) ≡ or_first (find_file name files) (first_named name dirs)
unfolding drop_ins
find-drop_ins_from name [] files = ground arith
find-drop_ins_from name (dir ∷ dirs) files =
    find-drop_ins_from name dirs (add_drop_ins dir.drop_ins files)
    ∙ rw (find-add_drop_ins name dir.drop_ins files)
        (or_first_assoc (find_file name files) (named name dir.drop_ins) (first_named name dirs))

-- Of the drop-ins with one name the one of the first directory counts, and only names that end in
-- `.conf` do.
pub find-drop_ins :
    (name : String) (dirs : List Dir) → find_file name (drop_ins dirs []) ≡ first_named name dirs
unfolding find_file
find-drop_ins name dirs = find-drop_ins_from name dirs []
