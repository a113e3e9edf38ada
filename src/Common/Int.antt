-- ===== src/Common/Int.antt =====
-- Integers over the native numbers, and the tests that the driver makes on C's `int` results.
use Prim.Native.Nat.{ℕ, suc, ◌+◌, ◌-◌, ◌≤◌}
use mathlib.Core.Bool.{Bool, true, false}
use spanker.Common.Tests.{◌==◌, ltb, ltb→lt, if◌then◌else◌, Bool-cases}
use mathlib.Core.Logic.{inl, inr}
use native.Mathlib.Omega.{arith}

-- `negsuc n` is -(n + 1).
pub data ℤ : Type 0 where
  pos : ℕ → ℤ
  negsuc : ℕ → ℤ

-- `err < 0`.
abbrev pub is_negative : ℤ → Bool
is_negative (pos n) = false
is_negative (negsuc n) = true

-- `!err`.
abbrev pub is_zero : ℤ → Bool
is_zero (pos n) = n == 0
is_zero (negsuc n) = false

-- `m - n` of two natural numbers.
abbrev pub minus : ℕ → ℕ → ℤ
minus m n = if ltb m n then negsuc (n - suc m) else pos (m - n)

infixl 6 ◌+ℤ◌
abbrev pub ◌+ℤ◌ : ℤ → ℤ → ℤ
pos m +ℤ pos n = pos (m + n)
pos m +ℤ negsuc n = minus m (suc n)
negsuc m +ℤ pos n = minus n (suc m)
negsuc m +ℤ negsuc n = negsuc (suc (m + n))

abbrev pub magnitude : ℤ → ℕ
magnitude (pos n) = n
magnitude (negsuc n) = suc n

magnitude-minus : (m n : ℕ) → magnitude (minus m n) ≤ m + n
magnitude-minus m n = elim (Bool-cases (ltb m n)) [
  | inl less ↦ rw less (omega (arith, ltb→lt m n less))
  | inr other ↦ rw other (omega arith)
]

pub magnitude_add : (x y : ℤ) → magnitude (x +ℤ y) ≤ magnitude x + magnitude y
magnitude_add (pos m) (pos n) = omega arith
magnitude_add (pos m) (negsuc n) = magnitude-minus m (suc n)
magnitude_add (negsuc m) (pos n) = omega (arith, magnitude-minus n (suc m))
magnitude_add (negsuc m) (negsuc n) = omega arith
