-- ===== src/Float32.antt =====
-- The binary32 arithmetic that Rust's `f32` stands for, on all values. A finite one has a sign and a
-- whole number of units of 2^-149, the smallest positive value; which NaN it is, is not kept.
pub mod Exact
pub mod Comparison
pub mod Signed
pub mod Error
use spanker.Common.{ℕ, ◌+◌, ◌-◌, ◌*◌, ◌/◌, ◌^◌, Bool, true, false, not, ltb, ◌==◌, if◌then◌else◌}
use spanker.Float64.{halvings, nearest_even}

pub data F32 : Type 0 where
  finite : (negative : Bool) → ℕ → F32
  infinity : (negative : Bool) → F32
  nan : F32

-- One, in units.
abbrev pub one_units : ℕ
one_units = 2 ^ 149

-- The distance of neighbouring values around `q` units: a significand has 24 bits.
unfoldable pub spacing : ℕ → ℕ
unfolding halvings
spacing q = 2 ^ halvings (2 ^ 24) q q

-- The value nearest to `num / den` units, ties to even, were the exponent unbounded above.
unfoldable pub round_units : ℕ → ℕ → ℕ
unfolding spacing nearest_even
round_units num den = let step = spacing (num / den) in nearest_even num (den * step) * step

-- The first number of units past the finite values: 2^128.
abbrev pub overflow_units : ℕ
overflow_units = 2 ^ 277

unfoldable pub of_units : Bool → ℕ → F32
of_units negative u = if ltb u overflow_units then finite negative u else infinity negative

unfoldable pub rounded : Bool → ℕ → ℕ → F32
unfolding round_units of_units
rounded negative num den = of_units negative (round_units num den)

-- `n as f32`.
unfoldable pub of_usize : ℕ → F32
unfolding rounded
of_usize n = rounded false (n * one_units) 1

abbrev pub differ : Bool → Bool → Bool
differ s t = if s then not t else t

-- The sum of two finite values of different signs; one that is exactly zero is positive.
unfoldable pub subtract : Bool → ℕ → ℕ → F32
unfolding rounded
subtract s m n =
    if ltb n m
    then rounded s (m - n) 1
    else if ltb m n
    then rounded (not s) (n - m) 1
    else finite false 0

unfoldable pub add : F32 → F32 → F32
unfolding rounded subtract
add nan y = nan
add (infinity s) nan = nan
add (infinity s) (infinity t) = if differ s t then nan else infinity s
add (infinity s) (finite t n) = infinity s
add (finite s m) nan = nan
add (finite s m) (infinity t) = infinity t
add (finite s m) (finite t n) = if differ s t then subtract s m n else rounded s (m + n) 1

unfoldable pub div : F32 → F32 → F32
unfolding rounded
div nan y = nan
div (infinity s) (finite t n) = infinity (differ s t)
div (infinity s) y = nan
div (finite s m) nan = nan
div (finite s m) (infinity t) = finite (differ s t) 0
div (finite s m) (finite t n) =
    if n == 0
    then (if m == 0 then nan else infinity (differ s t))
    else rounded (differ s t) (m * one_units) n

-- `<` by sign and magnitude: the two zeros are equal.
unfoldable pub less : Bool → ℕ → Bool → ℕ → Bool
less false m false n = ltb m n
less false m true n = false
less true m false n = ltb 0 (m + n)
less true m true n = ltb n m

-- `<`. Only NaN is not ordered.
unfoldable pub lt : F32 → F32 → Bool
unfolding less
lt nan y = false
lt (infinity s) nan = false
lt (infinity s) (infinity t) = if s then not t else false
lt (infinity s) (finite t n) = s
lt (finite s m) nan = false
lt (finite s m) (infinity t) = not t
lt (finite s m) (finite t n) = less s m t n

-- `>`.
abbrev pub gt : F32 → F32 → Bool
gt x y = lt y x
