-- ===== src/Float64/Powers.antt =====
-- The spacings of binary64 values are powers of two: they divide one another.
use native.Mathlib.Nat.{pow-suc, pow-le-pow_right, one-le-pow}
use spanker.Common.{
  ℕ, zero, suc, ◌+◌, ◌-◌, ◌*◌, ◌^◌, ◌≤◌, ◌<◌, ◌≡◌, ap, ◌∙◌, ◌⊎◌, inl, inr, ltb, ltb→lt, ltb→ge,
  ◌==◌, Bool-cases, arith,
}
use spanker.Float64.{halvings, spacing, one_units}

same_power : (a b : ℕ) → a ≡ b → 2 ^ a ≡ 2 ^ b
same_power a b e = ap (λ (t : ℕ). 2 ^ t) e

pow_add : (a b : ℕ) → 2 ^ (a + b) ≡ 2 ^ a * 2 ^ b
pow_add zero b = omega (arith, same_power (zero + b) b (omega arith))
pow_add (suc a) b = omega (
  arith,
  same_power (suc a + b) (suc (a + b)) (omega arith),
  pow-suc 2 (a + b),
  pow_add a b,
  ap (λ (t : ℕ). t * 2 ^ b) (pow-suc 2 a),
)

-- A smaller power divides a larger one.
pub pow_divides : (a b : ℕ) → a ≤ b → (k : ℕ) × (2 ^ b ≡ k * 2 ^ a)
pow_divides a b h = (2 ^ (b - a), same_power b (b - a + a) (omega arith) ∙ pow_add (b - a) a)

exponent_lt : (a b : ℕ) → 2 ^ a < 2 ^ b → a < b
exponent_lt a b h = elim (Bool-cases (ltb a b)) [
  | inl less ↦ ltb→lt a b less
  | inr more ↦ absurd (omega (arith, pow-le-pow_right {n = 2} (omega arith) (ltb→ge a b more)))
]

pub exponent_le : (a b : ℕ) → 2 ^ a ≤ 2 ^ b → a ≤ b
exponent_le a b h =
    let up : 2 ^ a < 2 ^ suc b = omega (arith, pow-suc 2 b, one-le-pow b 2) in
    omega (arith, exponent_lt a (suc b) up)

-- A spacing that is not larger divides the other one.
pub spacing_divides : (p q : ℕ) → spacing p ≤ spacing q → (k : ℕ) × (spacing q ≡ k * spacing p)
unfolding spacing
spacing_divides p q h =
    pow_divides (halvings (2 ^ 53) p p) (halvings (2 ^ 53) q q)
      (exponent_le (halvings (2 ^ 53) p p) (halvings (2 ^ 53) q q) h)

-- A spacing below another one is half of it, or at most a quarter.
pub spacing_below :
    (p q : ℕ) → spacing p < spacing q → (spacing p * 2 ≡ spacing q) ⊎ (spacing p * 4 ≤ spacing q)
unfolding spacing
spacing_below p q h =
    let a = halvings (2 ^ 53) p p in
    let b = halvings (2 ^ 53) q q in
    let less = exponent_lt a b h in
    elim (Bool-cases (suc a == b)) [
      | inl step ↦ inl (omega (arith, same_power (suc a) b (ground arith), pow-suc 2 a))
      | inr more ↦
          let two_up : suc (suc a) ≤ b = ground arith in
          inr (
            omega (
              arith,
              pow-le-pow_right {n = 2} (omega arith) two_up,
              pow-suc 2 a,
              pow-suc 2 (suc a),
            ))
    ]

-- A spacing below two divides one.
pub spacing_divides_one :
    (q : ℕ) → spacing q < 2 * one_units → (k : ℕ) × (one_units ≡ k * spacing q)
unfolding spacing
spacing_divides_one q h =
    let small : 2 ^ halvings (2 ^ 53) q q < 2 ^ 1075 = omega (arith, h) in
    pow_divides (halvings (2 ^ 53) q q) 1074
      (omega (arith, exponent_lt (halvings (2 ^ 53) q q) 1075 small))
