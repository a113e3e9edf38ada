-- ===== src/Float64/Spacing.antt =====
-- The spacing of binary64 values: powers of two that grow with the value.
use native.Mathlib.Nat.{
  one-le-pow, pow-suc, pow-le-pow_right, mul-le-mul_right, le_of_mul-le-mul_right,
  le-div_iff_mul-le, div-mul-le_self,
}
use spanker.Common.{
  ℕ, zero, suc, ◌*◌, ◌/◌, ◌^◌, ◌≤◌, ◌<◌, ◌≡◌, refl, ◌⊎◌, inl, inr, ap, ltb, ltb→lt, ltb→ge,
  Bool-cases, arith,
}
use spanker.Float64.{halvings, spacing}

-- Fractions with positive denominators, compared by cross products: the quotient is monotone.
pub div_mono : (n₁ d₁ n₂ d₂ : ℕ) → 0 < d₁ → 0 < d₂ → n₁ * d₂ ≤ n₂ * d₁ → n₁ / d₁ ≤ n₂ / d₂
div_mono n₁ d₁ n₂ d₂ p₁ p₂ h =
    let a = mul-le-mul_right d₂ (div-mul-le_self n₁ d₁) in
    let b : n₁ / d₁ * d₂ * d₁ ≤ n₂ * d₁ = omega (arith, a) in
    (le-div_iff_mul-le p₂).1 (le_of_mul-le-mul_right b p₁)

order_cases : (a b : ℕ) → (a ≡ b) ⊎ (a < b) ⊎ (b < a)
order_cases a b = ground arith

-- Halving stops below the limit, and not before half of it.
pub halvings_lem :
    (half fuel q : ℕ)
    → 0 < half
    → q ≤ fuel
    → (q < 2 * half * 2 ^ halvings (2 * half) fuel q)
      × ((halvings (2 * half) fuel q ≡ 0) ⊎ (half * 2 ^ halvings (2 * half) fuel q ≤ q))
unfolding halvings
halvings_lem half zero q p h = (omega arith, inl refl)
halvings_lem half (suc fuel) q p h = elim (Bool-cases (ltb q (2 * half))) [
  | inl small ↦ rw small (omega (arith, ltb→lt q (2 * half) small), inl refl)
  | inr large ↦
      let q_large = ltb→ge q (2 * half) large in
      let e = halvings (2 * half) fuel (q / 2) in
      let (below, above) = halvings_lem half fuel (q / 2) p (omega arith) in
      let twice : half * 2 ^ suc e ≡ half * (2 ^ e * 2) = ap (λ (t : ℕ). half * t) (pow-suc 2 e) in
      rw large (
        omega (arith, twice, below),
        inr (elim above [
          | inl none ↦ omega (arith, twice, ap (λ (t : ℕ). half * 2 ^ t) none)
          | inr more ↦ omega (arith, twice, more)
        ]),
      )
]

-- Below 2^53 units the spacing is one; above it is a power of two under which a value has 53 bits.
pub spacing_lem :
    (q : ℕ)
    → (0 < spacing q) × (q < 2 ^ 53 * spacing q) × ((spacing q ≡ 1) ⊎ (2 ^ 52 * spacing q ≤ q))
unfolding spacing
spacing_lem q =
    let (below, above) = halvings_lem (2 ^ 52) q q (omega arith) (omega arith) in
    (
      one-le-pow (halvings (2 ^ 53) q q) 2 (omega arith),
      below,
      elim above [ inl none ↦ inl (ap (λ (t : ℕ). 2 ^ t) none) | inr more ↦ inr more ],
    )

-- A smaller spacing is at most half of a larger one, and the spacing is monotone.
pub spacing_order :
    (p q : ℕ) → (spacing p ≡ spacing q) ⊎ (spacing p * 2 ≤ spacing q) ⊎ (spacing q * 2 ≤ spacing p)
unfolding spacing
spacing_order p q = powers (halvings (2 ^ 53) p p) (halvings (2 ^ 53) q q)
  where
    larger : (a b : ℕ) → a < b → 2 ^ a * 2 ≤ 2 ^ b
    larger a b h = omega (arith, pow-suc 2 a, pow-le-pow_right {n = 2} (omega arith) h)

    powers : (a b : ℕ) → (2 ^ a ≡ 2 ^ b) ⊎ (2 ^ a * 2 ≤ 2 ^ b) ⊎ (2 ^ b * 2 ≤ 2 ^ a)
    powers a b = elim (order_cases a b) [
      | inl e ↦ inl (ap (λ (t : ℕ). 2 ^ t) e)
      | inr (inl h) ↦ inr (inl (larger a b h))
      | inr (inr h) ↦ inr (inr (larger b a h))
    ]
