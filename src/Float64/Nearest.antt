-- ===== src/Float64/Nearest.antt =====
-- Rounding to the nearest whole number, ties to even: bounds, and monotonicity in the fraction.
use native.Mathlib.Nat.{
  div-add-mod, mod-lt, mul-le-mul_right, mul-lt-mul_of_pos_right, le_of_mul-le-mul_right,
  lt_of_mul-lt-mul_right,
}
use spanker.Common.{
  ℕ, ◌+◌, ◌*◌, ◌/◌, ◌%◌, ◌≤◌, ◌<◌, ◌≡◌, ap, ◌⊎◌, inl, inr, ltb, ltb→lt, ltb→ge, Bool-cases, arith,
}
use spanker.Float64.{nearest_even}
use spanker.Float64.Spacing.{div_mono}

pub nearest_even_floor :
    (num den : ℕ) → (num / den ≤ nearest_even num den) × (nearest_even num den ≤ num / den + 1)
unfolding nearest_even
nearest_even_floor num den = ground arith

nearest_even-cases :
    (num den : ℕ)
    → ((nearest_even num den ≡ num / den) × (2 * (num % den) ≤ den))
      ⊎ ((nearest_even num den ≡ num / den + 1) × (den ≤ 2 * (num % den)))
unfolding nearest_even
nearest_even-cases num den = ground arith

-- The error is at most one half.
pub nearest_even_error :
    (num den : ℕ)
    → 0 < den
    → (2 * (nearest_even num den * den) ≤ 2 * num + den)
      × (2 * num ≤ 2 * (nearest_even num den * den) + den)
nearest_even_error num den p = elim (nearest_even-cases num den) [
  | inl (e, r) ↦ rw e (omega (arith, div-add-mod num den))
  | inr (e, r) ↦ rw e (omega (arith, div-add-mod num den, mod-lt num p))
]

-- Remainders that stand as the fractions do, past one half or at it.
half_le : (r₁ d₁ r₂ d₂ : ℕ) → 0 < d₁ → r₁ * d₂ ≤ r₂ * d₁ → d₁ ≤ 2 * r₁ → d₂ ≤ 2 * r₂
half_le r₁ d₁ r₂ d₂ p h a =
    let b = mul-le-mul_right d₂ a in le_of_mul-le-mul_right {k = d₁} (omega (arith, b)) p

half_lt : (r₁ d₁ r₂ d₂ : ℕ) → 0 < d₂ → r₁ * d₂ ≤ r₂ * d₁ → d₁ < 2 * r₁ → d₂ < 2 * r₂
half_lt r₁ d₁ r₂ d₂ p h a =
    let b = mul-lt-mul_of_pos_right a p in lt_of_mul-lt-mul_right d₁ (omega (arith, b))

same_floor :
    (n₁ d₁ n₂ d₂ : ℕ)
    → 0 < d₁
    → 0 < d₂
    → n₁ * d₂ ≤ n₂ * d₁
    → n₁ / d₁ ≡ n₂ / d₂
    → nearest_even n₁ d₁ ≤ nearest_even n₂ d₂
unfolding nearest_even
same_floor n₁ d₁ n₂ d₂ p₁ p₂ h e =
    let r : n₁ % d₁ * d₂ ≤ n₂ % d₂ * d₁ = omega (
      arith,
      ap (λ (t : ℕ). t * d₂) (div-add-mod n₁ d₁),
      ap (λ (t : ℕ). t * d₁) (div-add-mod n₂ d₂),
      ap (λ (t : ℕ). d₁ * t * d₂) e,
    ) in
    ground (arith, half_le (n₁ % d₁) d₁ (n₂ % d₂) d₂ p₁ r, half_lt (n₁ % d₁) d₁ (n₂ % d₂) d₂ p₂ r)

pub nearest_even_mono :
    (n₁ d₁ n₂ d₂ : ℕ)
    → 0 < d₁
    → 0 < d₂
    → n₁ * d₂ ≤ n₂ * d₁
    → nearest_even n₁ d₁ ≤ nearest_even n₂ d₂
nearest_even_mono n₁ d₁ n₂ d₂ p₁ p₂ h = elim (Bool-cases (ltb (n₁ / d₁) (n₂ / d₂))) [
  | inl less ↦ omega (arith, ltb→lt _ _ less, nearest_even_floor n₁ d₁, nearest_even_floor n₂ d₂)
  | inr other ↦
      same_floor n₁ d₁ n₂ d₂ p₁ p₂ h (omega (arith, ltb→ge _ _ other, div_mono n₁ d₁ n₂ d₂ p₁ p₂ h))
]
