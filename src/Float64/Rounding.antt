-- ===== src/Float64/Rounding.antt =====
-- Rounding to binary64: the value of a fraction of units is monotone in the fraction, so equal
-- fractions round alike, and it is close.
use native.Mathlib.Nat.{
  mul-le-mul_right, le-div_iff_mul-le, div-lt_iff_lt-mul, one-le-mul, le_antisymm,
}
use spanker.Common.{ℕ, ◌*◌, ◌/◌, ◌^◌, ◌≤◌, ◌<◌, ◌≡◌, inl, inr, arith}
use spanker.Float64.{spacing, round_units}
use spanker.Float64.Spacing.{div_mono, spacing_lem, spacing_order}
use spanker.Float64.Nearest.{nearest_even_floor, nearest_even_mono}

-- A value with 53 bits is not rounded below the least value of its spacing.
round_units_lower :
    (num den : ℕ)
    → 0 < den
    → 2 ^ 52 * spacing (num / den) ≤ num / den
    → 2 ^ 52 * spacing (num / den) ≤ round_units num den
unfolding round_units
round_units_lower num den p h =
    let s = spacing (num / den) in
    let pos = (spacing_lem (num / den)).0 in
    let a = (le-div_iff_mul-le p).0 h in
    let b : 2 ^ 52 ≤ num / (den * s) =
      (le-div_iff_mul-le (one-le-mul p pos)).1 (omega (arith, a)) in
    mul-le-mul_right s (omega (arith, b, nearest_even_floor num (den * s)))

-- Nor above the least value of the next spacing.
pub round_units_upper : (num den : ℕ) → 0 < den → round_units num den ≤ 2 ^ 53 * spacing (num / den)
unfolding round_units
round_units_upper num den p =
    let s = spacing (num / den) in
    let (pos, below, _) = spacing_lem (num / den) in
    let a = (div-lt_iff_lt-mul p).0 below in
    let b : num / (den * s) < 2 ^ 53 =
      (div-lt_iff_lt-mul (one-le-mul p pos)).1 (omega (arith, a)) in
    mul-le-mul_right s (omega (arith, b, nearest_even_floor num (den * s)))

same_spacing :
    (n₁ d₁ n₂ d₂ : ℕ)
    → 0 < d₁
    → 0 < d₂
    → n₁ * d₂ ≤ n₂ * d₁
    → spacing (n₁ / d₁) ≡ spacing (n₂ / d₂)
    → round_units n₁ d₁ ≤ round_units n₂ d₂
unfolding round_units
same_spacing n₁ d₁ n₂ d₂ p₁ p₂ h e =
    let s = spacing (n₂ / d₂) in
    let pos = (spacing_lem (n₂ / d₂)).0 in
    let scaled : n₁ * (d₂ * s) ≤ n₂ * (d₁ * s) = omega (arith, mul-le-mul_right s h) in
    rw e (
      mul-le-mul_right s
        (nearest_even_mono n₁ (d₁ * s) n₂ (d₂ * s) (one-le-mul p₁ pos) (one-le-mul p₂ pos) scaled))

-- A fraction that is not larger is not rounded to a larger value.
pub round_units_mono :
    (n₁ d₁ n₂ d₂ : ℕ) → 0 < d₁ → 0 < d₂ → n₁ * d₂ ≤ n₂ * d₁ → round_units n₁ d₁ ≤ round_units n₂ d₂
round_units_mono n₁ d₁ n₂ d₂ p₁ p₂ h =
    let q = div_mono n₁ d₁ n₂ d₂ p₁ p₂ h in
    let (pos₁, below₁, above₁) = spacing_lem (n₁ / d₁) in
    let (pos₂, below₂, above₂) = spacing_lem (n₂ / d₂) in
    elim (spacing_order (n₁ / d₁) (n₂ / d₂)) [
      | inl e ↦ same_spacing n₁ d₁ n₂ d₂ p₁ p₂ h e
      | inr (inl less) ↦ elim above₂ [
        | inl one ↦ absurd (omega arith)
        | inr a ↦ omega (arith, round_units_upper n₁ d₁ p₁, round_units_lower n₂ d₂ p₂ a)
      ]
      | inr (inr more) ↦ elim above₁ [
        | inl one ↦ absurd (omega arith)
        | inr a ↦ absurd (omega arith)
      ]
    ]

-- Equal fractions round alike.
pub round_units_eq :
    (n₁ d₁ n₂ d₂ : ℕ) → 0 < d₁ → 0 < d₂ → n₁ * d₂ ≡ n₂ * d₁ → round_units n₁ d₁ ≡ round_units n₂ d₂
round_units_eq n₁ d₁ n₂ d₂ p₁ p₂ h =
    le_antisymm (round_units_mono n₁ d₁ n₂ d₂ p₁ p₂ (omega arith))
      (round_units_mono n₂ d₂ n₁ d₁ p₂ p₁ (omega arith))
