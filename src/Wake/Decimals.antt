-- ===== src/Wake/Decimals.antt =====
-- The text of a number is read back as that number, by `parse` as src/sleep/rtc.rs uses it.
use Prim.Native.Char.{Char, code}
use Prim.Native.String.{◌++◌ as append}
use native.Mathlib.Numerals.{unary_clauses}
use text.Mathlib.TextLemmas.{cons-append, nil-append}
use ampered.Prelude.{
  ap, sym, ◌∙◌, ℕ, zero, suc, ◌+◌, ◌*◌, ◌-◌, ◌/◌, ◌%◌, ◌^◌, ◌<◌, ◌≡◌, refl, arith, true, false,
  none, some, String, ◌==◌, Bool-cases, ==_iff, str_eq, eq_iff, leb, ltb, inl, inr, is_some,
  is_blank, is_whitespace, trim, trim_start, trim_end, strip_char, trim-newline, digit, digits,
  decimal_acc, decimal,
}
use ampered.Wake.Rtc.{
  parse_digits, parse_pending, parse_u64, parse_unsigned, after_plus, alarm_at, in_u64,
}

-- The character of a digit.
digit-cons : (d : ℕ) → d < 10 → (c : Char) × (digit d digits ≡ String.◌∷◌ c "") × (code c ≡ 48 + d)
unfolding digit digits
digit-cons zero h = ("0", refl, refl)
digit-cons (suc zero) h = ("1", refl, refl)
digit-cons (suc (suc zero)) h = ("2", refl, refl)
digit-cons (suc (suc (suc zero))) h = ("3", refl, refl)
digit-cons (suc (suc (suc (suc zero)))) h = ("4", refl, refl)
digit-cons (suc (suc (suc (suc (suc zero))))) h = ("5", refl, refl)
digit-cons (suc (suc (suc (suc (suc (suc zero)))))) h = ("6", refl, refl)
digit-cons (suc (suc (suc (suc (suc (suc (suc zero))))))) h = ("7", refl, refl)
digit-cons (suc (suc (suc (suc (suc (suc (suc (suc zero)))))))) h = ("8", refl, refl)
digit-cons (suc (suc (suc (suc (suc (suc (suc (suc (suc zero))))))))) h = ("9", refl, refl)
digit-cons (suc (suc (suc (suc (suc (suc (suc (suc (suc (suc d)))))))))) h = absurd (omega arith)

-- One digit.
parse_digits-digit :
    (d : ℕ) (rest : String) (acc : ℕ)
    → d < 10
    → parse_digits (append (digit d digits) rest) acc ≡ parse_digits rest (acc * 10 + d)
unfolding parse_digits
parse_digits-digit d rest acc h =
    let (c, same, value) = digit-cons d h in
    let first : append (digit d digits) rest ≡ String.◌∷◌ c rest =
      ap (λ s. append s rest) same
      ∙ (cons-append c "" rest ∙ ap (λ s. String.◌∷◌ c s) (nil-append rest)) in
    let low : leb 48 (48 + d) ≡ true = ground arith in
    let high : leb (48 + d) 57 ≡ true = ground arith in
    ap (λ s. parse_digits s acc) first
    ∙ rw value (rw (low, high) (ap (λ m. parse_digits rest (acc * 10 + m)) (omega arith)))

last_digit :
    (n : ℕ) (rest : String)
    → n / 10 ≡ 0
    → parse_digits (append (digit (n % 10) digits) rest) 0 ≡ parse_digits rest n
last_digit n rest h =
    parse_digits-digit (n % 10) rest 0 (omega arith) ∙ ap (λ m. parse_digits rest m) (omega arith)

-- The digits of a number in front of a text.
parse_digits-decimal_acc :
    (f n : ℕ) (rest : String)
    → n < 10 ^ suc f
    → parse_digits (decimal_acc (suc f) n rest) 0 ≡ parse_digits rest n
unfolding decimal_acc
parse_digits-decimal_acc zero n rest h =
    let few : n / 10 ≡ 0 = omega arith in rw ((==_iff (n / 10) 0).1 few) (last_digit n rest few)
parse_digits-decimal_acc (suc f) n rest h = elim (Bool-cases (n / 10 == 0)) [
  | inl last ↦ rw last (last_digit n rest ((==_iff (n / 10) 0).0 last))
  | inr more ↦
      let bound : 10 ^ suc (suc f) ≡ 10 * 10 ^ suc f = simp unary_clauses (omega arith) in
      rw more (
        parse_digits-decimal_acc f (n / 10) (append (digit (n % 10) digits) rest) (omega arith)
        ∙ (parse_digits-digit (n % 10) rest (n / 10) (omega arith)
            ∙ ap (λ m. parse_digits rest m) (omega arith)))
]

-- A `u64` is read back from its text.
pub parse_digits-decimal : (n : ℕ) → n < 2 ^ 64 → parse_digits (decimal n) 0 ≡ some n
unfolding decimal parse_digits
parse_digits-decimal n h = parse_digits-decimal_acc 19 n "" (omega arith)

-- A text that is read as digits has no white space at its ends, and no sign.
digits-trim_end : (s : String) (acc : ℕ) → is_some (parse_digits s acc) ≡ true → trim_end s ≡ s
unfolding parse_digits trim_end is_whitespace
digits-trim_end (String.[]) acc h = refl
digits-trim_end (String.◌∷◌ c s) acc h =
    let next = acc * 10 + (code c - 48) in
    let later : is_some (parse_digits s next) ≡ true = ground arith in
    let plain : is_whitespace (code c) ≡ false = ground arith in
    rw plain (ap (λ t. String.◌∷◌ c t) (digits-trim_end s next later))

digits-trim_start : (s : String) (acc : ℕ) → is_some (parse_digits s acc) ≡ true → trim_start s ≡ s
unfolding parse_digits trim_start is_whitespace
digits-trim_start (String.[]) acc h = refl
digits-trim_start (String.◌∷◌ c s) acc h = ground arith

pub digits-unsigned :
    (s : String) (acc : ℕ) → is_some (parse_digits s acc) ≡ true → strip_char b'+' s ≡ none
unfolding parse_digits strip_char
digits-unsigned (String.[]) acc h = refl
digits-unsigned (String.◌∷◌ c s) acc h = ground arith

first_digit : (d : ℕ) (rest : String) → d < 10 → is_blank (append (digit d digits) rest) ≡ false
first_digit d rest h =
    let (c, same, value) = digit-cons d h in
    ap (λ s. is_blank (append s rest)) same ∙ ap is_blank (cons-append c "" rest)

decimal_acc-is_blank :
    (f n : ℕ) (rest : String) → is_blank rest ≡ false → is_blank (decimal_acc f n rest) ≡ false
unfolding decimal_acc
decimal_acc-is_blank zero n rest h = h
decimal_acc-is_blank (suc f) n rest h =
    let here = first_digit (n % 10) rest (omega arith) in
    elim (Bool-cases (n / 10 == 0)) [
      | inl last ↦ rw last here
      | inr more ↦
          rw more (decimal_acc-is_blank f (n / 10) (append (digit (n % 10) digits) rest) here)
    ]

decimal-is_blank : (n : ℕ) → is_blank (decimal n) ≡ false
unfolding decimal decimal_acc
decimal-is_blank n =
    let here = first_digit (n % 10) "" (omega arith) in
    elim (Bool-cases (n / 10 == 0)) [
      | inl last ↦ rw last here
      | inr more ↦
          rw more (decimal_acc-is_blank 19 (n / 10) (append (digit (n % 10) digits) "") here)
    ]

parse_u64-decimal : (n : ℕ) → n < 2 ^ 64 → parse_u64 (decimal n) ≡ some n
unfolding parse_u64 after_plus parse_unsigned in_u64
parse_u64-decimal n h =
    let value = parse_digits-decimal n h in
    let fits : ltb n (2 ^ 64) ≡ true = ground arith in
    rw (digits-unsigned (decimal n) 0 (ap is_some value))
      (rw (decimal-is_blank n) (rw value (rw fits refl)))

trim-decimal : (n : ℕ) → n < 2 ^ 64 → trim (append (decimal n) "\n") ≡ decimal n
unfolding trim
trim-decimal n h =
    let read : is_some (parse_digits (decimal n) 0) ≡ true =
      ap is_some (parse_digits-decimal n h) in
    trim-newline (decimal n)
    ∙ (ap trim_start (digits-trim_end (decimal n) 0 read) ∙ digits-trim_start (decimal n) 0 read)

-- The attribute shows an alarm as its seconds and a line break, and that is read back.
pub parse_pending-decimal :
    (n : ℕ) → n < 2 ^ 64 → parse_pending (append (decimal n) "\n") ≡ some (some (n * 10 ^ 9))
unfolding parse_pending alarm_at
parse_pending-decimal n h =
    rw (trim-decimal n h) (rw (decimal-is_blank n, parse_u64-decimal n h) refl)

pub decimal-ne_zero : (n : ℕ) → 0 < n → n < 2 ^ 64 → str_eq (decimal n) "0" ≡ false
unfolding parse_digits
decimal-ne_zero n h fits = elim (Bool-cases (str_eq (decimal n) "0")) [
  | inl same ↦
      let zero_read : some 0 ≡ some n =
        ap (λ s. parse_digits s 0) (sym ((eq_iff (decimal n) "0").0 same))
        ∙ parse_digits-decimal n fits in
      absurd (grind (arith, zero_read))
  | inr other ↦ other
]
