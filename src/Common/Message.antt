-- ===== src/Common/Message.antt =====
-- The numbers that a message contains, read back from its text.
use Prim.Native.Nat.{ℕ, ◌+◌, ◌-◌, ◌*◌}
use Prim.Native.String.{String}
use Prim.Native.String.{◌++◌ as str_append}
use mathlib.Core.Path.{◌≡◌, refl, sym, ap, ◌∙◌}
use mathlib.Core.Logic.{inl, inr}
use mathlib.Core.Bool.{Bool, true, false, not, ◌&&◌}
use mathlib.Core.Option.{Option, none, some}
use mathlib.Core.List.{List, [], ◌∷◌, ◌++◌, append-nil}
use spanker.Common.Tests.{if◌then◌else◌, Bool-cases}
use spanker.Common.Decimal.{
  decimal, codes, codes-append, digits_value, digits_value-decimal, is_digit, AreDigits,
  decimal-IsNumeral,
}

-- The value of the number that is being read, if one is.
abbrev value : Option ℕ → ℕ
value none = 0
value (some v) = v

-- What a code point does to that number: a digit extends it, another one ends it.
abbrev extended : Option ℕ → ℕ → Option ℕ
extended number c = if is_digit c then some (value number * 10 + (c - 48)) else none

abbrev finished : Option ℕ → List ℕ
finished none = []
finished (some v) = v ∷ []

abbrev ended : Option ℕ → ℕ → List ℕ
ended number c = if is_digit c then [] else finished number

-- The numbers written in a text of code points, its maximal runs of digits, after `number`.
unfoldable pub read_numbers : Option ℕ → List ℕ → List ℕ
read_numbers number [] = finished number
read_numbers number (c ∷ cs) = ended number c ++ read_numbers (extended number c) cs

unfoldable pub numbers : String → List ℕ
unfolding read_numbers
numbers s = read_numbers none (codes s)

-- The pieces that `write!` puts one after the other.
abbrev pub written : List String → String
written [] = ""
written (s ∷ []) = s
written (s ∷ rest) = str_append s (written rest)

-- Text without digits.
abbrev pub no_digits : List ℕ → Bool
no_digits [] = true
no_digits (c ∷ cs) = not (is_digit c) && no_digits cs

read_numbers-no_digits :
    (w ys : List ℕ) → no_digits w ≡ true → read_numbers none (w ++ ys) ≡ read_numbers none ys
unfolding read_numbers
read_numbers-no_digits [] ys h = refl
read_numbers-no_digits (c ∷ w) ys h = elim (Bool-cases (is_digit c)) [
  | inl digit ↦ cc (rw digit at h)
  | inr other ↦ rw other (read_numbers-no_digits w ys (rw other at h))
]

-- Digits after digits go on with the number.
read_numbers-digits :
    (xs ys : List ℕ) (v : ℕ)
    → AreDigits xs
    → read_numbers (some v) (xs ++ ys) ≡ read_numbers (some (digits_value v xs)) ys
unfolding read_numbers digits_value
read_numbers-digits [] ys v h = refl
read_numbers-digits (c ∷ xs) ys v h = rw h.0 (read_numbers-digits xs ys (v * 10 + (c - 48)) h.1)

-- Text without digits has no numbers in it,
pub numbers-text :
    (w s : String) → no_digits (codes w) ≡ true → numbers (str_append w s) ≡ numbers s
unfolding numbers
numbers-text w s h = rw (codes-append w s) (read_numbers-no_digits (codes w) (codes s) h)

read_numbers-decimal :
    (n : ℕ) (ys : List ℕ) → read_numbers none (codes (decimal n) ++ ys) ≡ read_numbers (some n) ys
unfolding read_numbers digits_value
read_numbers-decimal n ys =
    let (x, xs, e, digits) = decimal-IsNumeral n in
    let read : digits_value 0 (x ∷ xs) ≡ n = rw (← e) (digits_value-decimal n) in
    rw (e, digits.0, read_numbers-digits xs ys (0 * 10 + (x - 48)) digits.1)
      (ap (λ (v : ℕ). read_numbers (some v) ys) read)

-- a number at the end of a text is read as itself,
pub numbers-decimal : (n : ℕ) → numbers (decimal n) ≡ n ∷ []
unfolding numbers read_numbers
numbers-decimal n =
    ap (λ (cs : List ℕ). read_numbers none cs) (sym (append-nil (codes (decimal n))))
    ∙ read_numbers-decimal n []

-- and so is one before a text that does not start with a digit.
pub numbers-decimal_then :
    (n : ℕ) (w : String) {c : ℕ} {cs : List ℕ}
    → codes w ≡ c ∷ cs
    → is_digit c ≡ false
    → numbers (str_append (decimal n) w) ≡ n ∷ numbers w
unfolding numbers read_numbers
numbers-decimal_then n w {c} {cs} e h =
    rw (codes-append (decimal n) w, read_numbers-decimal n, e, h) refl

pub numbers-decimal_text :
    (n : ℕ) (w s : String) {c : ℕ} {cs : List ℕ}
    → codes w ≡ c ∷ cs
    → is_digit c ≡ false
    → no_digits (codes w) ≡ true
    → numbers (str_append (decimal n) (str_append w s)) ≡ n ∷ numbers s
numbers-decimal_text n w s e h plain =
    numbers-decimal_then n (str_append w s) (codes-append w s ∙ ap (λ (r : List ℕ). r ++ codes s) e)
      h
    ∙ ap (λ (r : List ℕ). n ∷ r) (numbers-text w s plain)
