-- ===== src/Float64/ShareErrors.antt =====
-- The errors of two quotients by one count, against the difference of the values.
use native.Mathlib.Nat.{mul-le-mul_right, le_of_mul-le-mul_right, div-mul-le_self}
use spanker.Common.{ℕ, ◌+◌, ◌*◌, ◌/◌, ◌^◌, ◌≤◌, ◌<◌, ◌≡◌, ap, ◌⊎◌, inl, inr, arith}
use spanker.Float64.{spacing}
use spanker.Float64.Spacing.{spacing_lem}
use spanker.Float64.Powers.{spacing_below}

-- The arithmetic of the two quotients, with the spacings that bound their errors.
pub small_errors :
    (share_w share_a w a n gap tw ta : ℕ)
    → 2 ≤ n
    → 2 * (share_w * n) ≤ 2 * w + n * tw
    → 2 * a ≤ 2 * (share_a * n) + n * ta
    → w ≡ a + gap
    → tw + ta ≤ gap
    → share_w + a ≤ w + share_a
small_errors share_w share_a w a n gap tw ta p hw ha e h =
    let en = ap (λ (t : ℕ). t * n) e in
    let errors = mul-le-mul_right n h in
    let twice = mul-le-mul_right gap p in
    le_of_mul-le-mul_right {k = n} (omega (arith, hw, ha, en, errors, twice, e)) (omega arith)

pub small_errors_three :
    (share_w share_a w a n gap tw ta : ℕ)
    → 3 ≤ n
    → 2 * (share_w * n) ≤ 2 * w + n * tw
    → 2 * a ≤ 2 * (share_a * n) + n * ta
    → w ≡ a + gap
    → 3 * (tw + ta) ≤ 4 * gap
    → share_w + a ≤ w + share_a
small_errors_three share_w share_a w a n gap tw ta p hw ha e h =
    let en = ap (λ (t : ℕ). t * n) e in
    let errors = mul-le-mul_right n h in
    let thrice = mul-le-mul_right gap p in
    le_of_mul-le-mul_right {k = n} (omega (arith, hw, ha, en, errors, thrice, e)) (omega arith)

-- A share of at least two has at most half the spacing, but for the smallest spacing.
pub share_spacing :
    (q n : ℕ)
    → 2 ≤ n
    → (spacing (q / n) ≡ 1)
      ⊎ ((spacing (q / n) * 2 ≤ spacing q) × (2 ^ 52 * (spacing (q / n) * n) ≤ q))
share_spacing q n p =
    let (pos, below, above) = spacing_lem q in
    elim (spacing_lem (q / n)).2 [
      | inl one ↦ inl one
      | inr many ↦
          let whole = div-mul-le_self q n in
          let scaled = mul-le-mul_right n many in
          let two = mul-le-mul_right (spacing (q / n)) p in
          let less : spacing (q / n) < spacing q = omega (arith, whole, scaled, two, below) in
          inr (
            elim (spacing_below (q / n) q less) [
              | inl twice ↦ omega (arith, twice)
              | inr four ↦ omega (arith, four)
            ],
            omega (arith, whole, scaled),
          )
    ]
