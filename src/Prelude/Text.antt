-- ===== src/Prelude/Text.antt =====
-- Text as `format!` and `join` build it, over the native strings.
use Prim.Native.Nat.{ℕ, zero, suc, ◌%◌, ◌/◌}
use Prim.Native.String.{String, ◌++◌ as append}
use mathlib.Core.List.{List, [], ◌∷◌}
use ampered.Prelude.Tests.{if◌then◌else◌, ◌==◌}

-- The pieces of a `format!`, one after another.
unfoldable pub concat : List String → String
concat [] = ""
concat (s ∷ ss) = append s (concat ss)

-- `parts.join(separator)`.
unfoldable pub join : String → List String → String
join separator [] = ""
join separator (s ∷ []) = s
join separator (s ∷ (t ∷ ss)) = append s (append separator (join separator (t ∷ ss)))

unfoldable pub digit : ℕ → List String → String
digit zero (s ∷ ss) = s
digit (suc n) (s ∷ ss) = digit n ss
digit n [] = ""

unfoldable pub digits : List String
digits = "0" ∷ "1" ∷ "2" ∷ "3" ∷ "4" ∷ "5" ∷ "6" ∷ "7" ∷ "8" ∷ "9" ∷ []

unfoldable pub decimal_acc : ℕ → ℕ → String → String
decimal_acc zero n acc = acc
decimal_acc (suc f) n acc =
    let more = decimal_acc f (n / 10) (append (digit (n % 10) digits) acc) in
    if n / 10 == 0 then append (digit (n % 10) digits) acc else more

-- A number in decimal; a `u64` has at most 20 digits.
unfoldable pub decimal : ℕ → String
unfolding digit digits decimal_acc
decimal n = decimal_acc 20 n ""

-- A signed integer, and its text. `negsuc n` is -(n + 1).
pub data ℤ : Type 0 where
  pos : ℕ → ℤ
  negsuc : ℕ → ℤ

unfoldable pub decimal_ℤ : ℤ → String
unfolding decimal
decimal_ℤ (pos n) = decimal n
decimal_ℤ (negsuc n) = append "-" (decimal (suc n))
