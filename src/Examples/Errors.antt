-- ===== src/Examples/Errors.antt =====
-- Reductions of src/scheduler/src/collective.rs on `f32` values that round, and the theorems about their
-- errors at such inputs.
use spanker.Common.{true, false, ◌-◌, ◌+◌, ◌*◌, ◌^◌, ◌≤◌, ◌≡◌, refl, some, List, [], ◌∷◌, ok, arith}
use spanker.Float32.{F32, finite, of_usize, add, div, rounded, subtract}
use spanker.Float32.Error.{IsFinite}
use spanker.Float32.Exact.{fixed}
use spanker.Scheduler.Topology.{with_mock}
use spanker.Scheduler.Collective.{
  sum, avg, validate_uniform, all_reduce_f32, reduce_cards, combinator, fold_cards, finish,
}
use spanker.Scheduler.Collective.Reduce.{column}
use spanker.Scheduler.Collective.Single.{single}
use spanker.Scheduler.Collective.SumError.{parts, sum_error, total_size, all_reduce_f32_sum_error}
use spanker.Scheduler.Collective.MeanError.{mean_error, all_reduce_f32_mean_error}
use spanker.Scheduler.Collective.SumFinite.{all_reduce_f32_sum-IsFinite}

-- 2^24, 1 and -5/2: the first addition is a tie, which loses the 1.
abbrev elements : List F32
elements = fixed 149 (2 ^ 24) ∷ fixed 149 1 ∷ finite true (5 * 2 ^ 148) ∷ []

abbrev cards : List (List F32)
cards = (fixed 149 (2 ^ 24) ∷ []) ∷ (fixed 149 1 ∷ []) ∷ (finite true (5 * 2 ^ 148) ∷ []) ∷ []

-- 2^24 - 2.5 is a tie again.
abbrev stored : F32
stored = fixed 149 (2 ^ 24 - 2)

rounded_sum :
    all_reduce_f32 (with_mock 3) cards sum
    ≡ some (ok tt, (stored ∷ []) ∷ (stored ∷ []) ∷ (stored ∷ []) ∷ [])
unfolding all_reduce_f32 validate_uniform reduce_cards combinator fold_cards finish with_mock add
    rounded subtract
rounded_sum = refl

-- It is half too much, by 2^148 units.
half_too_much : sum_error elements stored ≡ 2 ^ 148
half_too_much = refl

all_reduce_f32_sum_error_example :
    parts ^ 2 * (sum_error elements stored + total_size elements)
    ≤ (parts + 1) ^ 2 * total_size elements
unfolding column
all_reduce_f32_sum_error_example =
    all_reduce_f32_sum_error (with_mock 3) cards
      ((stored ∷ []) ∷ (stored ∷ []) ∷ (stored ∷ []) ∷ []) 1 0 (stored ∷ []) (fixed 149 (2 ^ 24))
      (fixed 149 1 ∷ finite true (5 * 2 ^ 148) ∷ []) stored rounded_sum refl (tt, (tt, (tt, tt)))
      refl refl tt

all_reduce_f32_sum-IsFinite_example : IsFinite stored
unfolding column
all_reduce_f32_sum-IsFinite_example =
    all_reduce_f32_sum-IsFinite (with_mock 3) cards
      ((stored ∷ []) ∷ (stored ∷ []) ∷ (stored ∷ []) ∷ []) 1 0 (stored ∷ []) (fixed 149 (2 ^ 24))
      (fixed 149 1 ∷ finite true (5 * 2 ^ 148) ∷ []) stored rounded_sum refl (tt, (tt, (tt, tt)))
      (omega arith) refl refl

-- Two thirds, as a binary32 value.
abbrev two_thirds : F32
two_thirds = finite false (11184811 * 2 ^ 125)

abbrev thirds : List F32
thirds = fixed 149 1 ∷ fixed 149 1 ∷ fixed 149 0 ∷ []

abbrev third_cards : List (List F32)
third_cards = (fixed 149 1 ∷ []) ∷ (fixed 149 1 ∷ []) ∷ (fixed 149 0 ∷ []) ∷ []

rounded_mean :
    all_reduce_f32 (with_mock 3) third_cards avg
    ≡ some (ok tt, (two_thirds ∷ []) ∷ (two_thirds ∷ []) ∷ (two_thirds ∷ []) ∷ [])
unfolding all_reduce_f32 validate_uniform reduce_cards combinator fold_cards finish with_mock add
    div of_usize rounded
rounded_mean = refl

all_reduce_f32_mean_error_example :
    parts ^ 3 * (mean_error 3 thirds two_thirds + total_size thirds)
    ≤ (parts + 1) ^ 3 * total_size thirds + parts ^ 2 * (2 ^ 23 * 3)
unfolding column
all_reduce_f32_mean_error_example =
    all_reduce_f32_mean_error (with_mock 3) third_cards
      ((two_thirds ∷ []) ∷ (two_thirds ∷ []) ∷ (two_thirds ∷ []) ∷ []) 2 0 (two_thirds ∷ [])
      (fixed 149 1) (fixed 149 1 ∷ fixed 149 0 ∷ []) two_thirds rounded_mean refl (omega arith)
      (tt, (tt, (tt, tt))) refl refl tt
