-- ===== src/Examples/Sums.antt =====
-- Sums and means of src/scheduler/src/collective.rs on `f32` values, exact and rounded ones, and the
-- theorems about them at such inputs.
use spanker.Common.{ℕ, pos, negsuc, ◌+◌, ◌^◌, ◌≡◌, refl, false, some, List, [], ◌∷◌, map, ok, arith}
use spanker.Float32.{F32, finite, infinity, of_usize, add, div, rounded, subtract}
use spanker.Float32.Exact.{fixed}
use spanker.Scheduler.Topology.{with_mock}
use spanker.Scheduler.Collective.{
  sum, avg, validate_uniform, all_reduce_f32, reduce_cards, combinator, fold_cards, finish,
}
use spanker.Scheduler.Collective.Reduce.{column}
use spanker.Scheduler.Collective.Single.{single}
use spanker.Scheduler.Collective.Sums.{sum_of, all_reduce_f32_total, all_reduce_f32_mean}
use spanker.Float32.Signed.{signed}

abbrev one : F32
one = fixed 149 1

-- One, two and three and a half, and three times as much: in halves, 2, 4, 7 and 6, 12, 21.
abbrev halves : List ℕ → List F32
halves ns = map (fixed 148) ns

abbrev two_cards : List (List F32)
two_cards = halves (2 ∷ 4 ∷ 7 ∷ []) ∷ halves (6 ∷ 12 ∷ 21 ∷ []) ∷ []

sum_of_two :
    all_reduce_f32 (with_mock 2) two_cards sum
    ≡ some (ok tt, halves (8 ∷ 16 ∷ 28 ∷ []) ∷ halves (8 ∷ 16 ∷ 28 ∷ []) ∷ [])
unfolding all_reduce_f32 validate_uniform reduce_cards combinator fold_cards finish with_mock add
    rounded
sum_of_two = refl

mean_of_two :
    all_reduce_f32 (with_mock 2) two_cards avg
    ≡ some (ok tt, halves (4 ∷ 8 ∷ 14 ∷ []) ∷ halves (4 ∷ 8 ∷ 14 ∷ []) ∷ [])
unfolding all_reduce_f32 validate_uniform reduce_cards combinator fold_cards finish with_mock add
    div of_usize rounded
mean_of_two = refl

-- 1, -2.5 and -0.5 in halves, and what they add up to.
abbrev signed_cards : List (List F32)
signed_cards =
    (signed 148 (pos 2) ∷ []) ∷ (signed 148 (negsuc 4) ∷ []) ∷ (signed 148 (negsuc 0) ∷ []) ∷ []

abbrev signed_sum : List F32
signed_sum = signed 148 (negsuc 3) ∷ []

sum_of_signed :
    all_reduce_f32 (with_mock 3) signed_cards sum
    ≡ some (ok tt, signed_sum ∷ signed_sum ∷ signed_sum ∷ [])
unfolding all_reduce_f32 validate_uniform reduce_cards combinator fold_cards finish with_mock add
    rounded subtract
sum_of_signed = refl

all_reduce_f32_total_example :
    signed 148 (negsuc 3) ≡ signed 148 (sum_of (pos 2 ∷ negsuc 4 ∷ negsuc 0 ∷ []))
unfolding column
all_reduce_f32_total_example =
    all_reduce_f32_total 148 (with_mock 3) signed_cards (signed_sum ∷ signed_sum ∷ signed_sum ∷ [])
      2 0 signed_sum (signed 148 (negsuc 3)) (pos 2 ∷ negsuc 4 ∷ negsuc 0 ∷ []) (omega arith)
      sum_of_signed refl (omega arith) refl refl

all_reduce_f32_mean_example : fixed 148 14 ≡ fixed 148 14
unfolding column
all_reduce_f32_mean_example =
    all_reduce_f32_mean 148 (with_mock 2) two_cards
      (halves (4 ∷ 8 ∷ 14 ∷ []) ∷ halves (4 ∷ 8 ∷ 14 ∷ []) ∷ []) 1 2 (halves (4 ∷ 8 ∷ 14 ∷ []))
      (fixed 148 14) (7 ∷ 21 ∷ []) 14 (omega arith) mean_of_two refl (omega arith) (omega arith)
      (omega arith) refl refl

-- The mean of two cards that both hold 2^127 is infinity: their sum overflows before it is divided.
mean_overflows :
    all_reduce_f32
      (with_mock 2)
      ((finite false (2 ^ 276) ∷ []) ∷ (finite false (2 ^ 276) ∷ []) ∷ [])
      avg
    ≡ some (ok tt, (infinity false ∷ []) ∷ (infinity false ∷ []) ∷ [])
unfolding all_reduce_f32 validate_uniform reduce_cards combinator fold_cards finish with_mock add
    div of_usize rounded
mean_overflows = refl

-- Past 2^24 the order of the cards matters to a sum: 2^24 + 1 + 1 is not 1 + 1 + 2^24.
large_first :
    all_reduce_f32 (with_mock 3) ((fixed 149 (2 ^ 24) ∷ []) ∷ (one ∷ []) ∷ (one ∷ []) ∷ []) sum
    ≡ some (
      ok tt,
      (fixed 149 (2 ^ 24) ∷ []) ∷ (fixed 149 (2 ^ 24) ∷ []) ∷ (fixed 149 (2 ^ 24) ∷ []) ∷ [],
    )
unfolding all_reduce_f32 validate_uniform reduce_cards combinator fold_cards finish with_mock add
    rounded
large_first = refl

large_last :
    all_reduce_f32 (with_mock 3) ((one ∷ []) ∷ (one ∷ []) ∷ (fixed 149 (2 ^ 24) ∷ []) ∷ []) sum
    ≡ some (
      ok tt,
      (fixed 149 (2 ^ 24 + 2) ∷ [])
          ∷ (fixed 149 (2 ^ 24 + 2) ∷ [])
          ∷ (fixed 149 (2 ^ 24 + 2) ∷ [])
          ∷ [],
    )
unfolding all_reduce_f32 validate_uniform reduce_cards combinator fold_cards finish with_mock add
    rounded
large_last = refl
