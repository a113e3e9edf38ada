-- ===== src/Common/Word.antt =====
-- `u64`, and `usize` on the 64-bit hosts that the stack supports: saturating and checked products.
use Prim.Native.Nat.{ℕ, ◌-◌, ◌*◌, ◌^◌, ◌≤◌}
use mathlib.Core.Path.{◌≡◌}
use mathlib.Core.Option.{Option, none, some}
use native.Mathlib.Omega.{arith}
use spanker.Common.Tests.{ltb, if◌then◌else◌}

abbrev pub word_max : ℕ
word_max = 2 ^ 64 - 1

-- `u64::saturating_mul`.
unfoldable pub saturating_mul : ℕ → ℕ → ℕ
saturating_mul a b = if ltb word_max (a * b) then word_max else a * b

-- `usize::checked_mul`.
unfoldable pub checked_mul : ℕ → ℕ → Option ℕ
checked_mul a b = if ltb word_max (a * b) then none else some (a * b)

pub saturating_mul-le : (a b : ℕ) → saturating_mul a b ≤ word_max
unfolding saturating_mul
saturating_mul-le a b = ground arith

pub saturating_mul_exact : (a b : ℕ) → a * b ≤ word_max → saturating_mul a b ≡ a * b
unfolding saturating_mul
saturating_mul_exact a b h = ground arith
