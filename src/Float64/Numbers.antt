-- ===== src/Float64/Numbers.antt =====
-- Which operations return a number: NaN comes only of dividing zero by zero or infinity by infinity.
use spanker.Common.{
  ℕ, ◌+◌, ◌*◌, ◌^◌, ◌≤◌, ◌<◌, ◌≡◌, refl, ◌⊎◌, inl, inr, true, lt→ltb, word_max, arith,
}
use spanker.Float64.{
  F64, finite, infinity, nan, one_units, overflow_units, round_units, of_units, rounded, of_u64,
  add, div, le,
}
use spanker.Float64.Rounding.{round_units_mono}

-- NaN is the value that is not `<=` itself.
abbrev pub IsNumber : F64 → Type 0
IsNumber x = le x x ≡ true

pub le_total : (x y : F64) → IsNumber x → IsNumber y → (le x y ≡ true) ⊎ (le y x ≡ true)
unfolding le
le_total nan y hx hy = cc
le_total infinity nan hx hy = cc
le_total infinity infinity hx hy = inl refl
le_total infinity (finite y) hx hy = inr refl
le_total (finite x) nan hx hy = cc
le_total (finite x) infinity hx hy = inl refl
le_total (finite x) (finite y) hx hy = ground arith

of_units-IsNumber : (u : ℕ) → IsNumber (of_units u)
unfolding of_units le
of_units-IsNumber u = ground arith

pub rounded-IsNumber : (num den : ℕ) → IsNumber (rounded num den)
unfolding rounded
rounded-IsNumber num den = of_units-IsNumber (round_units num den)

pub add-IsNumber : (x y : F64) → IsNumber x → IsNumber y → IsNumber (add x y)
unfolding add le
add-IsNumber nan y hx hy = cc
add-IsNumber infinity nan hx hy = cc
add-IsNumber infinity infinity hx hy = refl
add-IsNumber infinity (finite y) hx hy = refl
add-IsNumber (finite x) nan hx hy = cc
add-IsNumber (finite x) infinity hx hy = refl
add-IsNumber (finite x) (finite y) hx hy = rounded-IsNumber (x + y) 1

pub div-IsNumber : (x : F64) (u : ℕ) → IsNumber x → 0 < u → IsNumber (div x (finite u))
unfolding div le
div-IsNumber nan u hx p = cc
div-IsNumber infinity u hx p = refl
div-IsNumber (finite x) u hx p = ground (arith, rounded-IsNumber (x * one_units) u)

round_one : round_units one_units 1 ≡ one_units
unfolding round_units
round_one = refl

round_word : round_units (2 ^ 64 * one_units) 1 ≡ 2 ^ 64 * one_units
unfolding round_units
round_word = refl

pub of_units_small : (u : ℕ) → u < overflow_units → of_units u ≡ finite u
unfolding of_units
of_units_small u h = rw (lt→ltb u overflow_units h)

-- A word that is not zero converts to a positive finite value.
pub of_u64_pos : (n : ℕ) → 0 < n → n ≤ word_max → (u : ℕ) × (0 < u) × (of_u64 n ≡ finite u)
unfolding of_u64 rounded
of_u64_pos n p h =
    let low =
      round_units_mono one_units 1 (n * one_units) 1 (omega arith) (omega arith) (omega arith) in
    let high =
      round_units_mono (n * one_units) 1 (2 ^ 64 * one_units) 1 (omega arith) (omega arith)
        (omega arith) in
    let u = round_units (n * one_units) 1 in
    (u, omega (arith, low, round_one), of_units_small u (omega (arith, high, round_word)))

pub of_u64-IsNumber : (n : ℕ) → IsNumber (of_u64 n)
unfolding of_u64
of_u64-IsNumber n = rounded-IsNumber (n * one_units) 1

pub infinity-add : (y : F64) → IsNumber y → add infinity y ≡ infinity
unfolding add le
infinity-add nan h = cc
infinity-add infinity h = refl
infinity-add (finite y) h = refl

pub add-infinity : (x : F64) → IsNumber x → add x infinity ≡ infinity
unfolding add le
add-infinity nan h = cc
add-infinity infinity h = refl
add-infinity (finite x) h = refl

pub infinity-div : (u : ℕ) → div infinity (finite u) ≡ infinity
unfolding div
infinity-div u = refl
