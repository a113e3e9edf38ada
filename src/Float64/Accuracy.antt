-- ===== src/Float64/Accuracy.antt =====
-- The relative error of the binary64 operations, in parts of 2^50, on values far from the smallest.
use native.Mathlib.Nat.{mul-le-mul_right, le-div_iff_mul-le, one-le-mul}
use spanker.Common.{
  ℕ, zero, suc, ◌+◌, ◌*◌, ◌/◌, ◌^◌, ◌≤◌, ◌<◌, ◌≡◌, refl, ◌⊎◌, inl, inr, eq_false, word_max, arith,
}
use spanker.Float64.{finite, one_units, overflow_units, spacing, round_units, rounded, of_u64, div}
use spanker.Float64.Spacing.{spacing_lem}
use spanker.Float64.Nearest.{nearest_even_error}
use spanker.Float64.Numbers.{of_units_small}

-- `x` differs from `y` by at most `e` parts in 2^50.
abbrev pub IsNear : ℕ → ℕ → ℕ → Type 0
IsNear e x y = (2 ^ 50 * x ≤ (2 ^ 50 + e) * y) × (2 ^ 50 * y ≤ 2 ^ 50 * x + e * y)

-- A whole multiple of `den` that is at most half of it is zero.
no_multiple : (v den : ℕ) → 0 < den → 2 * (v * den) ≤ den → v * den ≡ 0
no_multiple zero den p h = omega arith
no_multiple (suc v) den p h = absurd (omega arith)

-- The error is at most half of the spacing.
pub round_units_error :
    (num den : ℕ)
    → 0 < den
    → (2 * (round_units num den * den) ≤ 2 * num + den * spacing (num / den))
      × (2 * num ≤ 2 * (round_units num den * den) + den * spacing (num / den))
unfolding round_units
round_units_error num den p =
    let s = spacing (num / den) in
    let (hi, lo) = nearest_even_error num (den * s) (one-le-mul p (spacing_lem (num / den)).0) in
    (omega (arith, hi), omega (arith, lo))

-- Whole numbers of units round as closely as fractions of many units.
pub round_units-IsNear :
    (num den : ℕ)
    → 0 < den
    → (den ≡ 1) ⊎ (num ≡ 0) ⊎ (2 ^ 52 * den ≤ num)
    → IsNear 1 (round_units num den * den) num
round_units-IsNear num den p h =
    let s = spacing (num / den) in
    let v = round_units num den in
    let (hi, lo) = round_units_error num den p in
    elim (spacing_lem (num / den)).2 [
      | inl one ↦
          let unit : den * s ≡ den = rw one (omega arith) in
          elim h [
            | inl whole ↦ (omega arith, omega arith)
            | inr (inl none) ↦
                let gone = no_multiple v den p (omega arith) in (omega arith, omega arith)
            | inr (inr many) ↦ (omega arith, omega arith)
          ]
      | inr large ↦
          let a : 2 ^ 52 * s * den ≤ num = (le-div_iff_mul-le p).0 large in
          (omega arith, omega arith)
    ]

-- `as f64` of a word.
pub of_u64-IsNear :
    (n : ℕ) → n ≤ word_max → (u : ℕ) × (of_u64 n ≡ finite u) × IsNear 1 u (n * one_units)
unfolding of_u64 rounded
of_u64-IsNear n h =
    let u = round_units (n * one_units) 1 in
    let (hi, lo) = round_units-IsNear (n * one_units) 1 (omega arith) (inl refl) in
    (u, of_units_small u (omega arith), (omega arith, omega arith))

-- The value of `x` units over a word, where `x` is zero or well inside the range of values.
pub div-IsNear :
    (x y : ℕ)
    → 0 < y
    → y ≤ word_max
    → (x ≡ 0) ⊎ (one_units ≤ 2 ^ 120 * x)
    → x ≤ 2 ^ 70 * one_units
    → (v : ℕ) × (div (finite x) (of_u64 y) ≡ finite v) × IsNear 3 (v * y) x
unfolding div rounded
div-IsNear x y p h small large =
    let (u, e, (hi, lo)) = of_u64-IsNear y h in
    let pos : 0 < u = omega arith in
    let v = round_units (x * one_units) u in
    let sized : (x * one_units ≡ 0) ⊎ (2 ^ 52 * u ≤ x * one_units) = elim small [
      | inl none ↦ inl (omega arith)
      | inr some ↦ inr (omega arith)
    ] in
    let (above, below) = round_units-IsNear (x * one_units) u pos (inr sized) in
    let a = mul-le-mul_right v hi in
    let b = mul-le-mul_right v lo in
    let up : 2 ^ 50 * (v * y) ≤ (2 ^ 50 + 3) * x = omega (arith, b, above) in
    let down : 2 ^ 50 * x ≤ 2 ^ 50 * (v * y) + 3 * x = omega (arith, a, below) in
    let within : v < overflow_units = omega (arith, up, mul-le-mul_right v p) in
    (v, rw (e, eq_false u 0 (omega arith), of_units_small v within) refl, (up, down))
