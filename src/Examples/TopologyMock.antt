-- ===== src/Examples/TopologyMock.antt =====
-- The integration tests src/scheduler/tests/topology_mock.rs, each as the conjunction of its
-- assertions.
use spanker.Common.{
  ℕ, not, ◌^◌, ◌*◌, ◌≡◌, refl, Bool, true, false, ◌&&◌, ◌==◌, Option, some, List, [], ◌∷◌, map,
  Result, ok, err,
}
use spanker.Float32.{F32, finite, of_usize, add, div, lt, less, rounded}
use spanker.Scheduler.Collective.Single.{single}
use spanker.Scheduler.Failure.{Error, topology_mismatch, shape_mismatch}
use spanker.Scheduler.Intercard.{intercard_lanes, intercard_lane_width, intercard_bus_width}
use spanker.Scheduler.Topology.{with_mock}
use spanker.Scheduler.Collective.{
  sum, max, min, avg, validate_uniform, reduce_cards, combinator, fold_cards, finish,
  all_reduce_f32, all_gather_f32, extend_all,
}

abbrev floats : List ℕ → List F32
floats xs = map of_usize xs

-- `==` of values that are not NaN.
abbrev equal : F32 → F32 → Bool
equal (finite s m) (finite t n) = not (less s m t n) && not (less t n s m)
equal _ _ = false

abbrev same : List F32 → List F32 → Bool
same [] [] = true
same (x ∷ xs) (y ∷ ys) = equal x y && same xs ys
same _ _ = false

abbrev each_is : List F32 → List (List F32) → Bool
each_is expected [] = true
each_is expected (v ∷ rest) = same v expected && each_is expected rest

-- A reduction that succeeds and leaves each card with the expected buffer.
abbrev all_hold : Option (Result Error (Unit {0}) × List (List F32)) → List F32 → Bool
all_hold (some (ok u, cards)) expected = each_is expected cards
all_hold _ expected = false

abbrev ones_to_four : List (List F32)
ones_to_four = floats (1 ∷ []) ∷ floats (2 ∷ []) ∷ floats (3 ∷ []) ∷ floats (4 ∷ []) ∷ []

abbrev three_cards : List (List F32)
three_cards = floats (1 ∷ 5 ∷ 9 ∷ []) ∷ floats (7 ∷ 2 ∷ 8 ∷ []) ∷ floats (3 ∷ 6 ∷ 4 ∷ []) ∷ []

abbrev all_reduce_sum_two_cards_yields_sum : Bool
all_reduce_sum_two_cards_yields_sum =
    all_hold
      (all_reduce_f32 (with_mock 2) (floats (1 ∷ 2 ∷ 3 ∷ []) ∷ floats (10 ∷ 20 ∷ 30 ∷ []) ∷ []) sum)
      (floats (11 ∷ 22 ∷ 33 ∷ []))

abbrev all_reduce_sum_four_cards_yields_total : Bool
all_reduce_sum_four_cards_yields_total =
    all_hold (all_reduce_f32 (with_mock 4) ones_to_four sum) (floats (10 ∷ []))

-- 2.5 is five halves.
abbrev all_reduce_avg_four_cards_yields_mean : Bool
all_reduce_avg_four_cards_yields_mean =
    all_hold (all_reduce_f32 (with_mock 4) ones_to_four avg) (finite false (5 * 2 ^ 148) ∷ [])

abbrev all_reduce_max_picks_per_index_max : Bool
all_reduce_max_picks_per_index_max =
    all_hold (all_reduce_f32 (with_mock 3) three_cards max) (floats (7 ∷ 6 ∷ 9 ∷ []))

abbrev all_reduce_min_picks_per_index_min : Bool
all_reduce_min_picks_per_index_min =
    all_hold (all_reduce_f32 (with_mock 3) three_cards min) (floats (1 ∷ 2 ∷ 4 ∷ []))

abbrev gathers : Result Error (List F32) → List F32 → Bool
gathers (ok out) expected = same out expected
gathers (err e) expected = false

abbrev is_topology_mismatch : Result Error (List F32) → ℕ → ℕ → Bool
is_topology_mismatch (err (topology_mismatch expected actual)) e a =
    (expected == e) && (actual == a)
is_topology_mismatch _ e a = false

abbrev is_shape_mismatch : Result Error (List F32) → ℕ → ℕ → ℕ → Bool
is_shape_mismatch (err (shape_mismatch sail expected actual)) s e a =
    (sail == s) && (expected == e) && (actual == a)
is_shape_mismatch _ s e a = false

abbrev all_gather_four_cards_concatenates_in_order : Bool
all_gather_four_cards_concatenates_in_order =
    gathers
      (all_gather_f32 (with_mock 4) (
        floats (1 ∷ 2 ∷ []) ∷ floats (3 ∷ 4 ∷ []) ∷ floats (5 ∷ 6 ∷ []) ∷ floats (7 ∷ 8 ∷ []) ∷ []))
      (floats (1 ∷ 2 ∷ 3 ∷ 4 ∷ 5 ∷ 6 ∷ 7 ∷ 8 ∷ []))

abbrev all_gather_topology_mismatch : Bool
all_gather_topology_mismatch =
    is_topology_mismatch
      (all_gather_f32 (with_mock 2)
        (floats (1 ∷ 2 ∷ []) ∷ floats (3 ∷ 4 ∷ []) ∷ floats (5 ∷ 6 ∷ []) ∷ []))
      2 3

abbrev all_gather_shape_mismatch : Bool
all_gather_shape_mismatch =
    is_shape_mismatch (all_gather_f32 (with_mock 2) (floats (1 ∷ 2 ∷ []) ∷ floats (3 ∷ []) ∷ [])) 1
      2 1

abbrev intercard_constants_match_mast_14_contract : Bool
intercard_constants_match_mast_14_contract =
    (intercard_lanes == 4)
    && (intercard_lane_width == 32)
    && (intercard_bus_width == 128)
    && (intercard_lanes * intercard_lane_width == intercard_bus_width)

card_tests_pass :
    (all_reduce_sum_two_cards_yields_sum && all_reduce_sum_four_cards_yields_total
      && all_reduce_avg_four_cards_yields_mean && all_reduce_max_picks_per_index_max
      && all_reduce_min_picks_per_index_min && all_gather_four_cards_concatenates_in_order
      && all_gather_topology_mismatch && all_gather_shape_mismatch
      && intercard_constants_match_mast_14_contract)
    ≡ true
unfolding with_mock validate_uniform reduce_cards combinator fold_cards finish all_reduce_f32
    all_gather_f32 extend_all add div of_usize lt less rounded
card_tests_pass = refl
