-- ===== src/Float32/Error.antt =====
-- The rounding error of additions in binary32: at most one part in 2^24 of the exact sum. A finite value
-- is the difference of two numbers of units, one of which is zero.
use native.Mathlib.Nat.{one-le-pow, one-le-mul, le-div_iff_mul-le}
use spanker.Common.{
  ℕ, eq_false, ◌∙◌, ◌+◌, ◌-◌, ◌*◌, ◌/◌, ◌^◌, ◌≤◌, ◌<◌, ◌≡◌, refl, ◌⊎◌, inl, inr, Bool, true, false,
  not, ltb, ltb→lt, ltb→ge, Bool-cases, ap, arith,
}
use spanker.Float64.{halvings, nearest_even}
use spanker.Float64.Spacing.{halvings_lem}
use spanker.Float64.Nearest.{nearest_even_error}
use spanker.Float32.Exact.{of_usize_exact}
use spanker.Float32.{
  F32, of_usize, div, one_units, finite, infinity, nan, overflow_units, spacing, round_units,
  of_units, rounded, differ, subtract, add,
}

abbrev pub IsFinite : F32 → Type 0
IsFinite nan = ⊥
IsFinite (infinity s) = ⊥
IsFinite (finite s u) = Unit

abbrev pub above_zero : F32 → ℕ
above_zero (finite false u) = u
above_zero _ = 0

abbrev pub below_zero : F32 → ℕ
below_zero (finite true u) = u
below_zero _ = 0

abbrev pub distance : ℕ → ℕ → ℕ
distance m n = (m - n) + (n - m)

-- Rounding a whole number of units moves it by at most one part in 2^24.
pub round_units_error : (u : ℕ) → 2 ^ 24 * distance (round_units u 1) u ≤ u
unfolding round_units spacing
round_units_error u =
    let q = u / 1 in
    let h = halvings (2 ^ 24) q q in
    let s = 2 ^ h in
    let same : q ≡ u = omega arith in
    let pos : 0 < s = one-le-pow h 2 (omega arith) in
    let (hi, lo) = nearest_even_error u (1 * s) (omega (arith, pos)) in
    elim ((halvings_lem (2 ^ 23) q q (omega arith) (omega arith)).1) [
      | inl none ↦
          let unit : s ≡ 1 = ap (λ (t : ℕ). 2 ^ t) none in
          let exact : nearest_even u (1 * s) * s ≡ u = omega (arith, hi, lo, unit) in
          omega (arith, exact)
      | inr many ↦ omega (arith, hi, lo, many, same)
    ]

rounded_finite :
    (s : Bool) (num den : ℕ)
    → IsFinite (rounded s num den)
    → rounded s num den ≡ finite s (round_units num den)
unfolding rounded of_units
rounded_finite s num den f = elim (Bool-cases (ltb (round_units num den) overflow_units)) [
  | inl small ↦ rw small refl
  | inr large ↦ absurd (rw large at f)
]

subtract_finite :
    (s : Bool) (m n : ℕ)
    → IsFinite (subtract s m n)
    → ((n < m) × (subtract s m n ≡ finite s (round_units (m - n) 1)))
      ⊎ ((m < n) × (subtract s m n ≡ finite (not s) (round_units (n - m) 1)))
      ⊎ ((m ≡ n) × (subtract s m n ≡ finite false 0))
unfolding subtract
subtract_finite s m n f = elim (Bool-cases (ltb n m)) [
  | inl less ↦ inl (ltb→lt n m less, rw less (rounded_finite s (m - n) 1 (rw less at f)))
  | inr other ↦ elim (Bool-cases (ltb m n)) [
    | inl more ↦ inr (
        inl (
          ltb→lt m n more,
          rw (other, more) (rounded_finite (not s) (n - m) 1 (rw (other, more) at f)),
        ))
    | inr same ↦ inr (inr (omega (arith, ltb→ge n m other, ltb→ge m n same), rw (other, same) refl))
  ]
]

-- The sum of two finite values, where it is finite, differs from the exact one by at most one part in
-- 2^24 of it.
pub add_error :
    (x y : F32)
    → IsFinite x
    → IsFinite y
    → IsFinite (add x y)
    → 2 ^ 24
        * distance
            (above_zero (add x y) + (below_zero x + below_zero y))
            (above_zero x + above_zero y + below_zero (add x y))
      ≤ distance (above_zero x + above_zero y) (below_zero x + below_zero y)
unfolding add
add_error nan y fx fy fr = absurd fx
add_error (infinity s) y fx fy fr = absurd fx
add_error (finite s m) nan fx fy fr = absurd fy
add_error (finite s m) (infinity t) fx fy fr = absurd fy
add_error (finite false m) (finite false n) fx fy fr =
    rw (rounded_finite false (m + n) 1 fr) (omega (arith, round_units_error (m + n)))
add_error (finite true m) (finite true n) fx fy fr =
    rw (rounded_finite true (m + n) 1 fr) (omega (arith, round_units_error (m + n)))
add_error (finite false m) (finite true n) fx fy fr = elim (subtract_finite false m n fr) [
  | inl (h, e) ↦ rw e (omega (arith, h, round_units_error (m - n)))
  | inr (inl (h, e)) ↦ rw e (omega (arith, h, round_units_error (n - m)))
  | inr (inr (h, e)) ↦ rw e (omega (arith, h))
]
add_error (finite true m) (finite false n) fx fy fr = elim (subtract_finite true m n fr) [
  | inl (h, e) ↦ rw e (omega (arith, h, round_units_error (m - n)))
  | inr (inl (h, e)) ↦ rw e (omega (arith, h, round_units_error (n - m)))
  | inr (inr (h, e)) ↦ rw e (omega (arith, h))
]

-- Rounding a quotient moves it by at most one part in 2^24, or by half a unit.
round_quotient_error :
    (num den : ℕ) → 0 < den → 2 ^ 24 * distance (round_units num den * den) num ≤ num + 2 ^ 23 * den
unfolding round_units spacing
round_quotient_error num den p =
    let q = num / den in
    let h = halvings (2 ^ 24) q q in
    let s = 2 ^ h in
    let pos : 0 < s = one-le-pow h 2 (omega arith) in
    let (hi, lo) = nearest_even_error num (den * s) (one-le-mul p pos) in
    elim ((halvings_lem (2 ^ 23) q q (omega arith) (omega arith)).1) [
      | inl none ↦
          let unit : den * s ≡ den = omega (arith, ap (λ (t : ℕ). den * 2 ^ t) none) in
          omega (arith, hi, lo, unit)
      | inr many ↦
          let a : 2 ^ 23 * s * den ≤ num = (le-div_iff_mul-le p).0 many in omega (arith, hi, lo, a)
    ]

-- In units of one, of a number divided by a whole number.
quotient_error :
    (m n : ℕ)
    → 0 < n
    → 2 ^ 24 * distance (n * round_units (m * one_units) (n * one_units)) m ≤ m + 2 ^ 23 * n
quotient_error m n p =
    let h = round_quotient_error (m * one_units) (n * one_units) (omega (arith, p)) in
    omega (arith, h)

differ_positive : (s : Bool) → differ s false ≡ s
differ_positive true = refl
differ_positive false = refl

div_value :
    (s : Bool) (m n : ℕ)
    → 0 < n
    → n ≤ 2 ^ 24
    → IsFinite (div (finite s m) (of_usize n))
    → div (finite s m) (of_usize n) ≡ finite s (round_units (m * one_units) (n * one_units))
unfolding div
div_value s m n p h f =
    let divided = eq_false (n * one_units) 0 (λ z. absurd (omega (arith, p, z))) in
    let quotient : div (finite s m) (of_usize n) ≡ rounded s (m * one_units) (n * one_units) =
      rw (of_usize_exact n h, divided, differ_positive s) refl in
    quotient ∙ rounded_finite s (m * one_units) (n * one_units) (rw quotient at f)

-- A finite value divided by a whole number of up to 24 bits.
pub div_error :
    (x : F32) (n : ℕ)
    → 0 < n
    → n ≤ 2 ^ 24
    → IsFinite x
    → IsFinite (div x (of_usize n))
    → 2 ^ 24
        * distance
            (n * above_zero (div x (of_usize n)) + below_zero x)
            (above_zero x + n * below_zero (div x (of_usize n)))
      ≤ distance (above_zero x) (below_zero x) + 2 ^ 23 * n
div_error nan n p h fx f = absurd fx
div_error (infinity s) n p h fx f = absurd fx
div_error (finite false m) n p h fx f =
    rw (div_value false m n p h f) (omega (arith, quotient_error m n p))
div_error (finite true m) n p h fx f =
    rw (div_value true m n p h f) (omega (arith, quotient_error m n p))
