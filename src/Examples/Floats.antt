-- ===== src/Examples/Floats.antt =====
-- Reductions of src/scheduler/src/collective.rs on `f32` values, NaN and rounding included, and the
-- theorems about it at such inputs.
use mathlib.Core.List.{Permᴰ}
use spanker.Common.{◌+◌, ◌*◌, ◌^◌, ◌≡◌, refl, inl, inr, false, true, some, List, [], ◌∷◌, All, ok}
use spanker.Float32.{F32, finite, infinity, nan, of_usize, add, div, lt, gt, rounded}
use spanker.Float32.Exact.{fixed}
use spanker.Float32.Comparison.{IsNumber}
use spanker.Scheduler.Topology.{with_mock}
use spanker.Scheduler.Collective.{
  max, min, validate_uniform, all_reduce_f32, reduce_cards, combinator, fold_cards, finish,
}
use spanker.Scheduler.Collective.Extremes.{IsExtreme, all_reduce_f32_max, all_reduce_f32_min}
use spanker.Scheduler.Collective.Unordered.{IsExtremeOrFirst}
use spanker.Scheduler.Collective.Single.{
  single, gt-IsFloatOrder, lt-IsFloatOrder, all_reduce_f32_extreme, all_reduce_f32_any_order,
}

abbrev one : F32
one = fixed 149 1

-- 0.1 is no binary32 value: the quotient is rounded to 13421773 units of 2^-27.
tenth : div one (fixed 149 10) ≡ finite false (13421773 * 2 ^ 122)
unfolding div rounded
tenth = refl

-- Half way between two values the even one is taken, and past the largest value there is infinity.
to_even : of_usize (2 ^ 24 + 1) ≡ fixed 149 (2 ^ 24)
unfolding of_usize rounded
to_even = refl

overflows : add (finite false (2 ^ 276)) (finite false (2 ^ 276)) ≡ infinity false
unfolding add rounded
overflows = refl

no_negative_zero : add one (finite true (2 ^ 149)) ≡ finite false 0
unfolding add
no_negative_zero = refl

-- -2.5, infinity and NaN among the elements.
abbrev mixed_cards : List (List F32)
mixed_cards =
    (nan ∷ finite true (5 * 2 ^ 148) ∷ [])
    ∷ (one ∷ nan ∷ [])
    ∷ (infinity false ∷ finite true (2 ^ 148) ∷ [])
    ∷ []

abbrev greatest : List F32
greatest = nan ∷ finite true (2 ^ 148) ∷ []

max_of_mixed :
    all_reduce_f32 (with_mock 3) mixed_cards max ≡ some (ok tt, greatest ∷ greatest ∷ greatest ∷ [])
unfolding all_reduce_f32 validate_uniform reduce_cards combinator fold_cards finish with_mock lt
max_of_mixed = refl

all_reduce_f32_extreme_example : IsExtremeOrFirst IsNumber max mixed_cards 1 (finite true (2 ^ 148))
all_reduce_f32_extreme_example =
    all_reduce_f32_extreme max (with_mock 3) mixed_cards (greatest ∷ greatest ∷ greatest ∷ []) 2 1
      greatest (finite true (2 ^ 148)) (inl refl) max_of_mixed refl refl

abbrev signed_cards : List (List F32)
signed_cards = (one ∷ finite true 7 ∷ []) ∷ (finite true 3 ∷ finite false 0 ∷ []) ∷ []

abbrev swapped_cards : List (List F32)
swapped_cards = (finite true 3 ∷ finite false 0 ∷ []) ∷ (one ∷ finite true 7 ∷ []) ∷ []

abbrev least : List F32
least = finite true 3 ∷ finite true 7 ∷ []

abbrev greatest_signed : List F32
greatest_signed = one ∷ finite false 0 ∷ []

min_of_signed : all_reduce_f32 (with_mock 2) signed_cards min ≡ some (ok tt, least ∷ least ∷ [])
unfolding all_reduce_f32 validate_uniform reduce_cards combinator fold_cards finish with_mock lt
min_of_signed = refl

max_of_signed :
    all_reduce_f32 (with_mock 2) signed_cards max
    ≡ some (ok tt, greatest_signed ∷ greatest_signed ∷ [])
unfolding all_reduce_f32 validate_uniform reduce_cards combinator fold_cards finish with_mock lt
max_of_signed = refl

abbrev signed_numbers : All (All IsNumber) signed_cards
signed_numbers = ((tt, (tt, tt)), ((tt, (tt, tt)), tt))

greatest_of_signed : IsExtreme gt signed_cards 0 one
greatest_of_signed =
    all_reduce_f32_max IsNumber (with_mock 2) signed_cards (greatest_signed ∷ greatest_signed ∷ [])
      1 0 greatest_signed one gt-IsFloatOrder.ordered max_of_signed signed_numbers refl refl

least_of_signed : IsExtreme lt signed_cards 1 (finite true 7)
least_of_signed =
    all_reduce_f32_min IsNumber (with_mock 2) signed_cards (least ∷ least ∷ []) 0 1 least
      (finite true 7) lt-IsFloatOrder.ordered min_of_signed signed_numbers refl refl

all_reduce_f32_any_order_example :
    all_reduce_f32 (with_mock 2) swapped_cards min ≡ some (ok tt, least ∷ least ∷ [])
all_reduce_f32_any_order_example =
    all_reduce_f32_any_order min (with_mock 2) signed_cards swapped_cards (least ∷ least ∷ [])
      (inr refl) (Permᴰ.swap refl refl) ((tt, (tt, tt)), ((tt, (tt, tt)), tt)) min_of_signed
