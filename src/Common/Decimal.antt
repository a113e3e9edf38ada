-- ===== src/Common/Decimal.antt =====
-- The decimal text of a number, which `format!` writes for `{}` of an unsigned integer, and its reading.
use Prim.Native.Nat.{ℕ, zero, suc, ◌+◌, ◌-◌, ◌*◌, ◌/◌, ◌%◌, ◌<◌, ◌≤◌}
use Prim.Native.Char.{code}
use Prim.Native.String.{String}
use Prim.Native.String.{◌++◌ as str_append}
use text.Mathlib.TextLemmas.{nil-append, cons-append}
use mathlib.Core.Path.{◌≡◌, refl, sym, ap, ◌∙◌}
use mathlib.Core.Logic.{inl, inr}
use mathlib.Core.Bool.{Bool, true, ◌&&◌}
use mathlib.Core.List.{List, [], ◌∷◌, ◌++◌}
use native.Mathlib.Omega.{arith}
use spanker.Common.Lists.{All, All-append}
use spanker.Common.Tests.{leb, ltb, ltb→lt, ltb→ge, ◌==◌, if◌then◌else◌, Bool-cases}

digit : ℕ → String
digit d =
    if d == 0
    then "0"
    else if d == 1
    then "1"
    else if d == 2
    then "2"
    else if d == 3
    then "3"
    else if d == 4
    then "4"
    else if d == 5
    then "5"
    else if d == 6
    then "6"
    else if d == 7
    then "7"
    else if d == 8
    then "8"
    else "9"

decimal_digits : ℕ → ℕ → String
unfolding digit
decimal_digits zero n = digit (n % 10)
decimal_digits (suc fuel) n =
    let more = decimal_digits fuel (n / 10) in
    if ltb n 10 then digit n else str_append more (digit (n % 10))

-- The digits of a number; it has at most as many as its value, but for 0.
unfoldable pub decimal : ℕ → String
unfolding decimal_digits
decimal n = decimal_digits n n

-- The code points of a text.
abbrev pub codes : String → List ℕ
codes String.[] = []
codes (String.◌∷◌ c s) = code c ∷ codes s

pub codes-append : (s t : String) → codes (str_append s t) ≡ codes s ++ codes t
codes-append String.[] t = ap codes (nil-append t)
codes-append (String.◌∷◌ c s) t =
    ap codes (cons-append c s t) ∙ ap (λ r. code c ∷ r) (codes-append s t)

-- The code point of a digit.
abbrev pub is_digit : ℕ → Bool
is_digit c = leb 48 c && leb c 57

abbrev pub AreDigits : List ℕ → Type 0
AreDigits cs = All (λ c. is_digit c ≡ true) cs

-- A reader of digits, from a value already read.
unfoldable pub digits_value : ℕ → List ℕ → ℕ
digits_value acc [] = acc
digits_value acc (c ∷ cs) = digits_value (acc * 10 + (c - 48)) cs

digits_value-append :
    (acc : ℕ) (xs ys : List ℕ) → digits_value acc (xs ++ ys) ≡ digits_value (digits_value acc xs) ys
unfolding digits_value
digits_value-append acc [] ys = refl
digits_value-append acc (x ∷ xs) ys = digits_value-append (acc * 10 + (x - 48)) xs ys

codes-digit : (d : ℕ) → d < 10 → codes (digit d) ≡ (48 + d) ∷ []
unfolding digit
codes-digit zero h = refl
codes-digit (suc zero) h = refl
codes-digit (suc (suc zero)) h = refl
codes-digit (suc (suc (suc zero))) h = refl
codes-digit (suc (suc (suc (suc zero)))) h = refl
codes-digit (suc (suc (suc (suc (suc zero))))) h = refl
codes-digit (suc (suc (suc (suc (suc (suc zero)))))) h = refl
codes-digit (suc (suc (suc (suc (suc (suc (suc zero))))))) h = refl
codes-digit (suc (suc (suc (suc (suc (suc (suc (suc zero)))))))) h = refl
codes-digit (suc (suc (suc (suc (suc (suc (suc (suc (suc zero))))))))) h = refl
codes-digit (suc (suc (suc (suc (suc (suc (suc (suc (suc (suc d)))))))))) h = absurd (omega arith)

decimal_digits_value : (fuel n : ℕ) → n ≤ fuel → digits_value 0 (codes (decimal_digits fuel n)) ≡ n
unfolding decimal_digits digits_value
decimal_digits_value zero n h = rw (codes-digit (n % 10) (omega arith)) (omega arith)
decimal_digits_value (suc fuel) n h = elim (Bool-cases (ltb n 10)) [
  | inl small ↦ rw (small, codes-digit n (ltb→lt n 10 small)) (omega arith)
  | inr large ↦
      let ih = decimal_digits_value fuel (n / 10) (omega (arith, ltb→ge n 10 large)) in
      rw
        (
          large,
          codes-append (decimal_digits fuel (n / 10)) (digit (n % 10)),
          codes-digit (n % 10) (omega arith),
          digits_value-append 0 (codes (decimal_digits fuel (n / 10))),
          ih,
        )
        (omega arith)
]

-- Reading the decimal text of a number gives the number back.
pub digits_value-decimal : (n : ℕ) → digits_value 0 (codes (decimal n)) ≡ n
unfolding decimal
digits_value-decimal n = decimal_digits_value n n (omega arith)

-- So the text determines the number.
pub decimal_injective : (a b : ℕ) → decimal a ≡ decimal b → a ≡ b
decimal_injective a b e =
    sym (digits_value-decimal a)
    ∙ ap (λ (s : String). digits_value 0 (codes s)) e
    ∙ digits_value-decimal b

-- The text of a number is digits, one at least.
abbrev pub IsNumeral : List ℕ → Type 0
IsNumeral cs = (x : ℕ) × (xs : List ℕ) × (cs ≡ x ∷ xs) × AreDigits (x ∷ xs)

digit-IsNumeral : (d : ℕ) → d < 10 → IsNumeral (codes (digit d))
digit-IsNumeral d h = (48 + d, [], codes-digit d h, (ground arith, tt))

decimal_digits-IsNumeral : (fuel n : ℕ) → IsNumeral (codes (decimal_digits fuel n))
unfolding decimal_digits
decimal_digits-IsNumeral zero n = digit-IsNumeral (n % 10) (omega arith)
decimal_digits-IsNumeral (suc fuel) n = elim (Bool-cases (ltb n 10)) [
  | inl small ↦ rw small (digit-IsNumeral n (ltb→lt n 10 small))
  | inr large ↦
      let (x, xs, e, digits) = decimal_digits-IsNumeral fuel (n / 10) in
      let (y, ys, f, last) = digit-IsNumeral (n % 10) (omega arith) in
      (
        x,
        xs ++ y ∷ ys,
        rw (large, codes-append (decimal_digits fuel (n / 10)) (digit (n % 10)), e, f) refl,
        All-append (λ c. is_digit c ≡ true) (x ∷ xs) (y ∷ ys) digits last,
      )
]

pub decimal-IsNumeral : (n : ℕ) → IsNumeral (codes (decimal n))
unfolding decimal
decimal-IsNumeral n = decimal_digits-IsNumeral n n
