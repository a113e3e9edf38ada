-- ===== src/Float64/Values.antt =====
-- The binary64 values among the numbers of units: the multiples of their own spacing. Rounding yields
-- one, and leaves one alone.
use native.Mathlib.Nat.{lt_of_mul-lt-mul_right}
use spanker.Common.{
  ℕ, ◌+◌, ◌*◌, ◌/◌, ◌^◌, ◌≤◌, ◌<◌, ◌≡◌, refl, ap, ◌∙◌, inl, inr, ltb, ltb→lt, ltb→ge, Bool-cases,
  arith,
}
use spanker.Float64.{one_units, spacing, nearest_even, round_units}
use spanker.Float64.Spacing.{spacing_lem}
use spanker.Float64.Nearest.{nearest_even_error}
use spanker.Float64.Rounding.{round_units_upper}
use spanker.Float64.Powers.{spacing_divides, spacing_below, spacing_divides_one}

abbrev pub IsValue : ℕ → Type 0
IsValue v = (k : ℕ) × (v ≡ k * spacing v)

-- Rounding leaves a value alone.
pub round_exact : (v : ℕ) → IsValue v → round_units v 1 ≡ v
unfolding round_units
round_exact v (k, e) =
    let s = spacing (v / 1) in
    let r = nearest_even v (1 * s) in
    let pos = (spacing_lem (v / 1)).0 in
    let whole : v ≡ v / 1 = omega arith in
    let multiple : v ≡ k * s = e ∙ ap (λ (t : ℕ). k * spacing t) whole in
    let (hi, lo) = nearest_even_error v (1 * s) (omega (arith, pos)) in
    let above : r < k + 1 = lt_of_mul-lt-mul_right s (omega (arith, pos, hi, multiple)) in
    let below : k < r + 1 = lt_of_mul-lt-mul_right s (omega (arith, pos, lo, multiple)) in
    let same : r ≡ k = omega (arith, above, below) in
    omega (arith, multiple, ap (λ (t : ℕ). t * s) same)

-- The whole numbers of up to 53 bits are values.
pub whole-IsValue : (n : ℕ) → n < 2 ^ 53 → IsValue (n * one_units)
whole-IsValue n h =
    let (pos, below, above) = spacing_lem (n * one_units) in
    let small : spacing (n * one_units) < 2 * one_units = omega (arith, above) in
    let (k, e) = spacing_divides_one (n * one_units) small in
    (n * k, omega (arith, ap (λ (t : ℕ). n * t) e))

-- A multiple of a spacing that is at least its own is a value.
pub multiple-IsValue : (v q r : ℕ) → v ≡ r * spacing q → spacing v ≤ spacing q → IsValue v
multiple-IsValue v q r e h =
    let (k, d) = spacing_divides v q h in (r * k, omega (arith, e, ap (λ (t : ℕ). r * t) d))

-- Rounding yields a value.
pub round_units-IsValue : (num den : ℕ) → 0 < den → IsValue (round_units num den)
unfolding round_units
round_units-IsValue num den p =
    let q = num / den in
    let s = spacing q in
    let r = nearest_even num (den * s) in
    let v = r * s in
    let pos = (spacing_lem q).0 in
    let top : v ≤ 2 ^ 53 * s = round_units_upper num den p in
    elim (Bool-cases (ltb s (spacing v))) [
      | inr small ↦ multiple-IsValue v q r refl (ltb→ge s (spacing v) small)
      | inl large ↦
          let bits : 2 ^ 52 * spacing v ≤ v = elim (spacing_lem v).2 [
            | inl one ↦ absurd (omega (arith, pos, one, ltb→lt s (spacing v) large))
            | inr many ↦ many
          ] in
          elim (spacing_below q v (ltb→lt s (spacing v) large)) [
            | inl twice ↦ (2 ^ 52, omega (arith, twice, bits, top))
            | inr four ↦ absurd (omega (arith, four, bits, top, pos))
          ]
    ]
