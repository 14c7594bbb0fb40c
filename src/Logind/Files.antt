-- ===== src/Logind/Files.antt =====
-- The files of logind's settings (src/logind_conf.rs): which ones are read and in which order, and the
-- pairs of their `[Login]` sections. A directory is given by what it holds.
use Prim.Native.Nat.{Ordering}
use Prim.Native.String
use ampered.Prelude.{
  Bool, true, false, ◌||◌, List, [], ◌∷◌, ◌++◌, map, Option, none, some, String, str_eq,
  if◌then◌else◌, is_some, is_blank, trim, lines, split_once, strip_char, trim_end_char,
}
use ampered.Logind.Settings.{check}

-- A file: its text, unless it cannot be read.
abbrev pub File : Type 0
File = Option String

-- One of `DIRS`: its main file, if there is one, and the files of its drop-in folder by their names.
pub record Dir : Type 0 where
  pub main : Option File
  pub drop_ins : List (String × File)

abbrev readable : Option File → List String
readable (some (some text)) = text ∷ []
readable _ = []

abbrev first : Option File → Option File → Option File
first none other = other
first (some file) other = some file

-- The first main file that is there counts, also if it cannot be read.
unfoldable pub main_file : List Dir → Option File
main_file [] = none
main_file (dir ∷ dirs) = first dir.main (main_file dirs)

unfoldable pub find_file : String → List (String × File) → Option File
find_file name [] = none
find_file name ((n, file) ∷ rest) = if str_eq n name then some file else find_file name rest

abbrev pub is_lt : Ordering → Bool
is_lt Ordering.lt = true
is_lt _ = false

-- The entries of a `BTreeMap`, in the order of their names.
unfoldable pub insert_sorted : String → File → List (String × File) → List (String × File)
insert_sorted name file [] = (name, file) ∷ []
insert_sorted name file ((n, f) ∷ rest) =
    if is_lt (String.compare n name)
    then (n, f) ∷ insert_sorted name file rest
    else (name, file) ∷ ((n, f) ∷ rest)

-- `entry(name).or_insert(path)`.
unfoldable pub or_insert : String → File → List (String × File) → List (String × File)
or_insert name file files =
    if is_some (find_file name files) then files else insert_sorted name file files

-- `ends_with(".conf")`.
unfoldable pub is_conf : String → Bool
is_conf (String.[]) = false
is_conf (String.◌∷◌ c s) = str_eq (String.◌∷◌ c s) ".conf" || is_conf s

unfoldable pub add_drop_ins : List (String × File) → List (String × File) → List (String × File)
add_drop_ins [] files = files
add_drop_ins ((name, file) ∷ rest) files =
    add_drop_ins rest (if is_conf name then or_insert name file files else files)

unfoldable pub drop_ins : List Dir → List (String × File) → List (String × File)
drop_ins [] files = files
drop_ins (dir ∷ dirs) files = drop_ins dirs (add_drop_ins dir.drop_ins files)

texts : List (String × File) → List String
texts [] = []
texts ((name, none) ∷ rest) = texts rest
texts ((name, some text) ∷ rest) = text ∷ texts rest

-- `collect_files`: the main file, then the drop-ins by their names.
unfoldable pub collect_files : List Dir → List String
unfolding texts
collect_files dirs = readable (main_file dirs) ++ texts (drop_ins dirs [])

-- One line of a file, and whether the `[Login]` section goes on behind it.
is_comment : String → Bool
is_comment line = is_blank line || is_some (strip_char b'#' line) || is_some (strip_char b';' line)

abbrev pair_of : Option (String × String) → List (String × String)
pair_of none = []
pair_of (some (key, value)) = (trim key, trim value) ∷ []

read_pair : Bool → String → Option String → Bool × List (String × String)
read_pair in_login line (some section) = (str_eq (trim (trim_end_char b']' section)) "Login", [])
read_pair in_login line none = (in_login, if in_login then pair_of (split_once b'=' line) else [])

unfoldable pub read_line : Bool → String → Bool × List (String × String)
unfolding is_comment read_pair
read_line in_login raw =
    let line = trim raw in
    if is_comment line then (in_login, []) else read_pair in_login line (strip_char b'[' line)

unfoldable pub read_lines : Bool → List String → List (String × String)
read_lines in_login [] = []
read_lines in_login (line ∷ rest) =
    let (in_login', pairs) = read_line in_login line in pairs ++ read_lines in_login' rest

-- `login_section`.
unfoldable pub login_section : String → List (String × String)
login_section text = read_lines false (lines text)

-- `check` of what the directories hold.
unfoldable pub check_dirs : List Dir → Bool → List String
check_dirs dirs server = check server (map login_section (collect_files dirs))
