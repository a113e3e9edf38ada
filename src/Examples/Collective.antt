-- ===== src/Examples/Collective.antt =====
-- Runs of src/scheduler/src/collective.rs on the inputs of its tests,
-- and the theorems about it at such inputs.
use spanker.Common.{ℕ, map, ◌*◌, ◌≡◌, refl, inl, some, List, [], ◌∷◌, length, numbers, ok, err}
use spanker.Float32.{F32, of_usize, add, div, lt, rounded}
use spanker.Scheduler.Collective.Single.{single}
use spanker.Examples.Messages.{linux_texts}
use spanker.Scheduler.Collective.Traits.{mock_all_reduce, device_all_reduce, device_all_gather}
use spanker.Scheduler.Collective.Refusal.{SaysWhy, all_reduce_f32-SaysWhy}
use spanker.Scheduler.Failure.{display, topology_mismatch, shape_mismatch, not_implemented}
use spanker.Runtime.Control.{SpankerControl}
use spanker.Scheduler.Topology.{Topology, n_sails, with_mock}
use spanker.Scheduler.Collective.{
  sum, max, min, avg, validate_uniform, all_reduce_f32, all_gather_f32, extend_all, reduce_cards,
  combinator, fold_cards, finish, device_all_reduce_f32, device_all_gather_f32,
}
use spanker.Scheduler.Collective.Gather.{split_cards, split_cards-all_gather_f32}
use spanker.Scheduler.Collective.Compose.{all_gather_f32-all_reduce_f32, all_reduce_f32-again}
use spanker.Scheduler.Collective.AllReduce.{AllReduceOutcome, all_reduce_f32-cases}

abbrev floats : List ℕ → List F32
floats ns = map of_usize ns

abbrev two_cards : List (List F32)
two_cards = floats (1 ∷ 2 ∷ 3 ∷ []) ∷ floats (10 ∷ 20 ∷ 30 ∷ []) ∷ []

abbrev three_cards : List (List F32)
three_cards = floats (1 ∷ 5 ∷ 9 ∷ []) ∷ floats (7 ∷ 2 ∷ 8 ∷ []) ∷ floats (3 ∷ 6 ∷ 4 ∷ []) ∷ []

abbrev mean_cards : List (List F32)
mean_cards = floats (2 ∷ []) ∷ floats (8 ∷ []) ∷ []

abbrev flat : List F32
flat = floats (1 ∷ 2 ∷ 3 ∷ 10 ∷ 20 ∷ 30 ∷ [])

abbrev odd_cards : List (List F32)
odd_cards = floats (1 ∷ 2 ∷ []) ∷ floats (3 ∷ []) ∷ []

sum_of_two :
    all_reduce_f32 (with_mock 2) two_cards sum
    ≡ some (ok tt, floats (11 ∷ 22 ∷ 33 ∷ []) ∷ floats (11 ∷ 22 ∷ 33 ∷ []) ∷ [])
unfolding all_reduce_f32 validate_uniform reduce_cards combinator fold_cards finish with_mock add
    div of_usize rounded lt
sum_of_two = refl

max_of_three :
    all_reduce_f32 (with_mock 3) three_cards max
    ≡ some (ok tt, floats (7 ∷ 6 ∷ 9 ∷ []) ∷ floats (7 ∷ 6 ∷ 9 ∷ []) ∷ floats (7 ∷ 6 ∷ 9 ∷ []) ∷ [])
unfolding all_reduce_f32 validate_uniform reduce_cards combinator fold_cards finish with_mock add
    div of_usize rounded lt
max_of_three = refl

min_of_three :
    all_reduce_f32 (with_mock 3) three_cards min
    ≡ some (ok tt, floats (1 ∷ 2 ∷ 4 ∷ []) ∷ floats (1 ∷ 2 ∷ 4 ∷ []) ∷ floats (1 ∷ 2 ∷ 4 ∷ []) ∷ [])
unfolding all_reduce_f32 validate_uniform reduce_cards combinator fold_cards finish with_mock add
    div of_usize rounded lt
min_of_three = refl

mean_of_two :
    all_reduce_f32 (with_mock 2) mean_cards avg
    ≡ some (ok tt, floats (5 ∷ []) ∷ floats (5 ∷ []) ∷ [])
unfolding all_reduce_f32 validate_uniform reduce_cards combinator fold_cards finish with_mock add
    div of_usize rounded lt
mean_of_two = refl

shape_refused :
    all_reduce_f32 (with_mock 2) odd_cards sum ≡ some (err (shape_mismatch 1 2 1), odd_cards)
unfolding all_reduce_f32 validate_uniform with_mock
shape_refused = refl

topology_refused : all_gather_f32 (with_mock 2) three_cards ≡ err (topology_mismatch 2 3)
unfolding all_gather_f32 validate_uniform with_mock
topology_refused = refl

gathered : all_gather_f32 (with_mock 2) two_cards ≡ ok flat
unfolding all_gather_f32 validate_uniform extend_all with_mock
gathered = refl

all_reduce_f32-cases_example : AllReduceOutcome (with_mock 3) three_cards max
all_reduce_f32-cases_example = all_reduce_f32-cases (with_mock 3) three_cards max

split_cards-all_gather_f32_example :
    (length flat ≡ n_sails (with_mock 2) * 3)
    × (split_cards (n_sails (with_mock 2)) 3 flat ≡ two_cards)
split_cards-all_gather_f32_example =
    split_cards-all_gather_f32 (with_mock 2) two_cards flat gathered

abbrev greatest_cards : List (List F32)
greatest_cards = floats (7 ∷ 6 ∷ 9 ∷ []) ∷ floats (7 ∷ 6 ∷ 9 ∷ []) ∷ floats (7 ∷ 6 ∷ 9 ∷ []) ∷ []

reduced_then_gathered :
    (out : List F32) × (all_gather_f32 (with_mock 3) greatest_cards ≡ ok out)
    × (split_cards (n_sails (with_mock 3)) 3 out ≡ greatest_cards)
reduced_then_gathered =
    all_gather_f32-all_reduce_f32 (with_mock 3) three_cards greatest_cards max max_of_three

all_reduce_f32-again_example :
    all_reduce_f32 (with_mock 3) greatest_cards max ≡ some (ok tt, greatest_cards)
all_reduce_f32-again_example =
    all_reduce_f32-again (with_mock 3) three_cards greatest_cards max (inl refl) max_of_three

all_reduce_f32-SaysWhy_example :
    SaysWhy (n_sails (with_mock 2)) odd_cards (numbers (display linux_texts (shape_mismatch 1 2 1)))
    × (odd_cards ≡ odd_cards)
all_reduce_f32-SaysWhy_example =
    all_reduce_f32-SaysWhy linux_texts (with_mock 2) odd_cards odd_cards sum (shape_mismatch 1 2 1)
      shape_refused

-- A topology of two opened devices.
abbrev two_devices : Topology SpankerControl
two_devices = record { sails = record { file = 3 } ∷ record { file = 4 } ∷ []; links = [] }

-- Through the traits: the mock reduces and gathers, and the devices refuse and change nothing.
reduced_by_trait :
    mock_all_reduce.all_reduce_f32 (with_mock 3) three_cards max ≡ some (ok tt, greatest_cards)
reduced_by_trait = max_of_three

refused_by_trait :
    device_all_reduce.all_reduce_f32 two_devices two_cards sum
    ≡ some (
      err (not_implemented "AllReduce on real device requires SPANKER_IOC_WORK_SUBMIT (PR #6b)"),
      two_cards,
    )
unfolding device_all_reduce_f32
refused_by_trait = refl

gather_refused_by_trait :
    device_all_gather.all_gather_f32 two_devices two_cards
    ≡ err (not_implemented "AllGather on real device requires SPANKER_IOC_WORK_SUBMIT (PR #6b)")
unfolding device_all_gather_f32
gather_refused_by_trait = refl
