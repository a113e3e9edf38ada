-- ===== src/Examples/Cards.antt =====
-- The unit tests of src/scheduler/src/topology.rs and collective.rs on mocks, each as the conjunction
-- of its assertions.
use spanker.Common.{
  ℕ, map, ◌+◌, ◌≡◌, refl, Bool, true, false, not, ◌&&◌, ◌==◌, Option, some, List, [], ◌∷◌, length,
  Result, err,
}
use spanker.Float32.{F32, of_usize}
use spanker.Scheduler.Collective.Single.{single}
use spanker.Scheduler.Failure.{Error, topology_mismatch, shape_mismatch}
use spanker.Scheduler.Intercard.{LinkState, up, Link}
use spanker.Scheduler.Topology.{MockSail, n_sails, push_links, push_rows, with_mock}
use spanker.Scheduler.Collective.{
  sum, tensor_shard_count, model_shard_count, validate_uniform, all_reduce_f32,
}

abbrev with_mock_zero_sails_has_no_links : Bool
with_mock_zero_sails_has_no_links = let t = with_mock 0 in (n_sails t == 0) && (length t.links == 0)

abbrev is_up : LinkState → Bool
is_up up = true
is_up _ = false

-- Every link is up and joins two different sails.
abbrev all_meshed : List Link → Bool
all_meshed [] = true
all_meshed (link ∷ rest) =
    is_up link.state && not (link.local_sail == link.remote_sail) && all_meshed rest

abbrev with_mock_two_sails_has_two_links : Bool
with_mock_two_sails_has_two_links =
    let t = with_mock 2 in (n_sails t == 2) && (length t.links == 2) && all_meshed t.links

abbrev with_mock_four_sails_has_twelve_links : Bool
with_mock_four_sails_has_twelve_links =
    let t = with_mock 4 in (n_sails t == 4) && (length t.links == 12)

abbrev ids_from : ℕ → List MockSail → Bool
ids_from i [] = true
ids_from i (sail ∷ sails) = (sail.id == i) && ids_from (i + 1) sails

abbrev mock_sail_carries_id : Bool
mock_sail_carries_id = let t = with_mock 3 in ids_from 0 t.sails

abbrev topology_shard_count_matches_n_sails : Bool
topology_shard_count_matches_n_sails =
    let t = with_mock 3 in (tensor_shard_count t == 3) && (model_shard_count t == 3)

abbrev floats : List ℕ → List F32
floats ns = map of_usize ns

abbrev Outcome : Type 0
Outcome = Option (Result Error (Unit {0}) × List (List F32))

abbrev is_topology_mismatch : Outcome → ℕ → ℕ → Bool
is_topology_mismatch (some (err (topology_mismatch expected actual), cards)) e a =
    (expected == e) && (actual == a)
is_topology_mismatch _ e a = false

abbrev is_shape_mismatch : Outcome → ℕ → ℕ → ℕ → Bool
is_shape_mismatch (some (err (shape_mismatch sail expected actual), cards)) s e a =
    (sail == s) && (expected == e) && (actual == a)
is_shape_mismatch _ s e a = false

abbrev all_reduce_sum_topology_mismatch : Bool
all_reduce_sum_topology_mismatch =
    is_topology_mismatch
      (all_reduce_f32 (with_mock 2)
        (floats (1 ∷ 2 ∷ []) ∷ floats (3 ∷ 4 ∷ []) ∷ floats (5 ∷ 6 ∷ []) ∷ []) sum)
      2 3

abbrev all_reduce_sum_shape_mismatch : Bool
all_reduce_sum_shape_mismatch =
    is_shape_mismatch
      (all_reduce_f32 (with_mock 2) (floats (1 ∷ 2 ∷ []) ∷ floats (3 ∷ []) ∷ []) sum) 1 2 1

mock_topology_tests_pass :
    (with_mock_zero_sails_has_no_links && with_mock_two_sails_has_two_links
      && with_mock_four_sails_has_twelve_links && mock_sail_carries_id
      && topology_shard_count_matches_n_sails && all_reduce_sum_topology_mismatch
      && all_reduce_sum_shape_mismatch)
    ≡ true
unfolding with_mock push_rows push_links tensor_shard_count model_shard_count all_reduce_f32
    validate_uniform
mock_topology_tests_pass = refl
