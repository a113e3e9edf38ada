-- ===== src/Float64.antt =====
-- The binary64 arithmetic that Rust's `f64` stands for, on the values that src/scheduler reaches:
-- those that are not negative. Each finite one is a whole number of units of 2^-1074, the smallest
-- positive value, so it is kept as that number.
pub mod Spacing
pub mod Nearest
pub mod Rounding
pub mod Numbers
pub mod Accuracy
pub mod Powers
pub mod Values
pub mod ShareErrors
pub mod Shares
use spanker.Common.{
  ℕ, zero, suc, ◌+◌, ◌*◌, ◌/◌, ◌%◌, ◌^◌, Bool, true, false, ltb, leb, ◌==◌, if◌then◌else◌,
}

pub data F64 : Type 0 where
  finite : ℕ → F64
  infinity : F64
  nan : F64

-- One, in units.
abbrev pub one_units : ℕ
one_units = 2 ^ 1074

-- The number of halvings that bring `q` below the limit. Halving `q` times is enough.
unfoldable pub halvings : ℕ → ℕ → ℕ → ℕ
halvings limit zero q = 0
halvings limit (suc fuel) q =
    let more = suc (halvings limit fuel (q / 2)) in if ltb q limit then 0 else more

-- The distance of neighbouring values around `q` units: a significand has 53 bits.
unfoldable pub spacing : ℕ → ℕ
unfolding halvings
spacing q = 2 ^ halvings (2 ^ 53) q q

-- The whole number nearest to `num / den`, and at a tie the even one.
unfoldable pub nearest_even : ℕ → ℕ → ℕ
nearest_even num den =
    let q = num / den in
    let r = num % den in if ltb (2 * r) den then q else if ltb den (2 * r) then q + 1 else q + q % 2

-- The value nearest to `num / den` units, were the exponent unbounded above.
unfoldable pub round_units : ℕ → ℕ → ℕ
unfolding spacing nearest_even
round_units num den = let step = spacing (num / den) in nearest_even num (den * step) * step

-- The first number of units past the finite values: 2^1024.
abbrev pub overflow_units : ℕ
overflow_units = 2 ^ 2098

unfoldable pub of_units : ℕ → F64
of_units u = if ltb u overflow_units then finite u else infinity

unfoldable pub rounded : ℕ → ℕ → F64
unfolding round_units of_units
rounded num den = of_units (round_units num den)

-- `n as f64`.
unfoldable pub of_u64 : ℕ → F64
unfolding rounded
of_u64 n = rounded (n * one_units) 1

unfoldable pub add : F64 → F64 → F64
unfolding rounded
add nan y = nan
add infinity nan = nan
add infinity y = infinity
add (finite x) nan = nan
add (finite x) infinity = infinity
add (finite x) (finite y) = rounded (x + y) 1

unfoldable pub div : F64 → F64 → F64
unfolding rounded
div nan y = nan
div infinity (finite y) = infinity
div infinity y = nan
div (finite x) nan = nan
div (finite x) infinity = finite 0
div (finite x) (finite y) =
    if y == 0 then (if x == 0 then nan else infinity) else rounded (x * one_units) y

-- `<=`.
unfoldable pub le : F64 → F64 → Bool
le nan y = false
le x nan = false
le (finite x) (finite y) = leb x y
le (finite x) infinity = true
le infinity (finite y) = false
le infinity infinity = true
