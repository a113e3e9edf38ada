-- ===== src/Examples/Rounding.antt =====
-- The binary64 arithmetic at concrete values.
use spanker.Common.{◌+◌, ◌*◌, ◌^◌, ◌≤◌, ◌≡◌, refl, arith}
use spanker.Float64.{finite, infinity, nan, nearest_even, round_units, of_u64, add, div}
use spanker.Float64.Nearest.{nearest_even_error}
use spanker.Float64.Rounding.{round_units_mono}

-- 2^53 + 1 lies half way between two values and goes to the even one; 2^53 + 3 goes up.
ties : (round_units (2 ^ 53 + 1) 1 ≡ 2 ^ 53) × (round_units (2 ^ 53 + 3) 1 ≡ 2 ^ 53 + 4)
unfolding round_units
ties = (refl, refl)

quarter : div (of_u64 1) (of_u64 4) ≡ finite (2 ^ 1072)
unfolding div of_u64
quarter = refl

not_a_number : (div (of_u64 0) (of_u64 0) ≡ nan) × (div (of_u64 1) (of_u64 0) ≡ infinity)
unfolding div of_u64
not_a_number = (refl, refl)

too_large : add (finite (2 ^ 2097)) (finite (2 ^ 2097)) ≡ infinity
unfolding add
too_large = refl

round_units_mono_example : round_units 1 3 ≤ round_units (2 ^ 60) 7
round_units_mono_example = round_units_mono 1 3 (2 ^ 60) 7 (omega arith) (omega arith) (omega arith)

nearest_even_error_example :
    (2 * (nearest_even 5 2 * 2) ≤ 2 * 5 + 2) × (2 * 5 ≤ 2 * (nearest_even 5 2 * 2) + 2)
nearest_even_error_example = nearest_even_error 5 2 (omega arith)
