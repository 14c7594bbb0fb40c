-- ===== src/Prelude/Words.antt =====
-- The parts of texts as `trim`, `lines`, `split` and their kin of the standard library give them, by
-- recursion on the characters.
use Prim.Native.Nat.{ℕ}
use Prim.Native.Char.{Char, code}
use Prim.Native.String.{String, ◌++◌ as append}
use mathlib.Core.Path.{◌≡◌, refl, ap}
use mathlib.Core.Bool.{Bool, true, false, ◌&&◌, ◌||◌}
use mathlib.Core.Option.{Option, none, some}
use mathlib.Core.List.{List, [], ◌∷◌}
use text.Mathlib.TextLemmas.{cons-append}
use ampered.Prelude.Tests.{if◌then◌else◌, ◌==◌, leb}

abbrev pub is_blank : String → Bool
is_blank String.[] = true
is_blank (String.◌∷◌ c s) = false

-- `char::is_whitespace`: the property `White_Space` of Unicode.
unfoldable pub is_whitespace : ℕ → Bool
is_whitespace c =
    (leb 9 c && leb c 13)
    || (c == 32)
    || (c == 133)
    || (c == 160)
    || (c == 5760)
    || (leb 8192 c && leb c 8202)
    || (c == 8232)
    || (c == 8233)
    || (c == 8239)
    || (c == 8287)
    || (c == 12288)

unfoldable pub trim_start : String → String
unfolding is_whitespace
trim_start String.[] = ""
trim_start (String.◌∷◌ c s) =
    let rest = trim_start s in if is_whitespace (code c) then rest else String.◌∷◌ c s

unfoldable pub trim_end : String → String
unfolding is_whitespace
trim_end String.[] = ""
trim_end (String.◌∷◌ c s) =
    let rest = trim_end s in
    if is_whitespace (code c) && is_blank rest then "" else String.◌∷◌ c rest

unfoldable pub trim : String → String
unfolding trim_start trim_end
trim s = trim_start (trim_end s)

-- A text in front of the first of some pieces.
abbrev pub prepend : Char → List String → List String
prepend c [] = String.◌∷◌ c "" ∷ []
prepend c (s ∷ ss) = String.◌∷◌ c s ∷ ss

-- `split` at the characters that pass a test.
unfoldable pub split : (ℕ → Bool) → String → List String
split p String.[] = "" ∷ []
split p (String.◌∷◌ c s) = let rest = split p s in if p (code c) then "" ∷ rest else prepend c rest

unfoldable pub drop_blank : List String → List String
drop_blank [] = []
drop_blank (s ∷ ss) = let rest = drop_blank ss in if is_blank s then rest else s ∷ rest

unfoldable pub split_whitespace : String → List String
unfolding split drop_blank is_whitespace
split_whitespace s = drop_blank (split is_whitespace s)

-- The part before the first such character, and the part behind it.
abbrev pub before : Char → Option (String × String) → Option (String × String)
before c none = none
before c (some (s, t)) = some (String.◌∷◌ c s, t)

unfoldable pub split_once : ℕ → String → Option (String × String)
split_once d String.[] = none
split_once d (String.◌∷◌ c s) =
    let rest = split_once d s in if code c == d then some ("", s) else before c rest

-- `strip_prefix` of one character.
unfoldable pub strip_char : ℕ → String → Option String
strip_char d String.[] = none
strip_char d (String.◌∷◌ c s) = if code c == d then some s else none

-- `trim_end_matches` of one character.
unfoldable pub trim_end_char : ℕ → String → String
trim_end_char d String.[] = ""
trim_end_char d (String.◌∷◌ c s) =
    let rest = trim_end_char d s in if (code c == d) && is_blank rest then "" else String.◌∷◌ c rest

-- A `\r` at the end of a line belongs to the break.
unfoldable pub trim_cr : String → String
trim_cr String.[] = ""
trim_cr (String.◌∷◌ c s) =
    let rest = trim_cr s in if (code c == 13) && is_blank s then "" else String.◌∷◌ c rest

unfoldable pub lines_of : List String → List String
unfolding trim_cr
lines_of [] = []
lines_of (s ∷ []) = if is_blank s then [] else s ∷ []
lines_of (s ∷ (t ∷ ss)) = trim_cr s ∷ lines_of (t ∷ ss)

-- `lines`: no empty line behind the last break.
unfoldable pub lines : String → List String
unfolding split lines_of
lines s = lines_of (split (λ c. c == 10) s)

-- `contains` of a list of texts is `any` of a test.
unfoldable pub any {ℓ} : {A : Type ℓ} → (A → Bool) → List A → Bool
any p [] = false
any p (x ∷ xs) = p x || any p xs

-- A line break at the end is trimmed away.
trim_end-newline : (s : String) → trim_end (append s "\n") ≡ trim_end s
unfolding trim_end
trim_end-newline String.[] = refl
trim_end-newline (String.◌∷◌ c s) = rw (cons-append c s "\n") (
    ap (λ rest. if is_whitespace (code c) && is_blank rest then "" else String.◌∷◌ c rest)
      (trim_end-newline s))

pub trim-newline : (s : String) → trim (append s "\n") ≡ trim s
unfolding trim
trim-newline s = ap trim_start (trim_end-newline s)

trims : trim " \t ok go \n" ≡ "ok go"
unfolding trim
trims = refl

splits_words : split_whitespace " low  balanced\tfast\n" ≡ "low" ∷ ("balanced" ∷ ("fast" ∷ []))
unfolding split_whitespace
splits_words = refl

splits_lines : lines "a\r\n\nb\n" ≡ "a" ∷ ("" ∷ ("b" ∷ []))
unfolding lines
splits_lines = refl

splits_once : split_once b'=' "a=b=c" ≡ some ("a", "b=c")
unfolding split_once
splits_once = refl
