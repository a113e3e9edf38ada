-- ===== src/Scheduler/Decision/RevA.antt =====
-- src/scheduler/src/decision.rs with the constants of bandwidth.rs: the choice as a rule on the shape.
use native.Mathlib.Nat.{mul-le-mul_right, mul-le-mul_left, one-le-mul}
use spanker.Common.{
  ℕ, zero, suc, ◌+◌, ◌*◌, ◌^◌, ◌≤◌, ◌<◌, ◌≡◌, inl, inr, Bool-cases, leb, if◌then◌else◌, arith,
}
use spanker.Scheduler.Bandwidth.{local_ddr_bw_bytes_per_sec, intercard_bw_bytes_per_sec}
use spanker.Scheduler.Decision.{
  TileShape, Strategy, tensor_parallel, model_parallel, weight_bytes, activation_bytes,
  pick_strategy,
}
use spanker.Scheduler.Decision.Exact.{bytes_exact, pick_strategy_wide}
use spanker.Scheduler.Decision.Optimal.{pick_strategy_optimal}

-- The choice by the shape alone: the local memory is four times as fast as a link.
abbrev pub rev_a_rule : TileShape → Strategy
rev_a_rule tile = if leb (4 * tile.n) tile.k then tensor_parallel else model_parallel

-- Of two parts, sharding the larger one is not dearer.
shard_larger : (w a n : ℕ) → a ≤ w → 1 ≤ n → w + n * a ≤ n * w + a
shard_larger w a zero h p = absurd (omega arith)
shard_larger w a (suc n) h p = let more : n * a ≤ n * w = mul-le-mul_left n h in omega (arith, more)

module _ (tile : TileShape) (n_sails : ℕ) (p : 2 ≤ n_sails) (h : n_sails < 2 ^ 53)
    (hw : tile.m * tile.k * tile.bytes_per_element < 2 ^ 53)
    (ha : tile.m * tile.n * tile.bytes_per_element < 2 ^ 53) where
  deep_is_tensor_parallel :
      4 * tile.n ≤ tile.k
      → pick_strategy tile n_sails local_ddr_bw_bytes_per_sec intercard_bw_bytes_per_sec
        ≡ tensor_parallel
  unfolding weight_bytes activation_bytes
  deep_is_tensor_parallel deep =
      let w = bytes_exact tile.m tile.k tile.bytes_per_element (omega arith) in
      let a = bytes_exact tile.m tile.n tile.bytes_per_element (omega arith) in
      let scaled = mul-le-mul_right (tile.m * tile.bytes_per_element) deep in
      pick_strategy_optimal tile n_sails local_ddr_bw_bytes_per_sec intercard_bw_bytes_per_sec p h
        (omega arith) (omega arith) (omega arith) (omega arith) (rw w hw) (rw a ha)
        (rw (w, a)
          (shard_larger (tile.m * tile.k * tile.bytes_per_element * intercard_bw_bytes_per_sec)
            (tile.m * tile.n * tile.bytes_per_element * local_ddr_bw_bytes_per_sec) n_sails
            (omega (arith, scaled)) (omega arith)))

  wide_is_model_parallel :
      0 < tile.m * tile.bytes_per_element
      → tile.k ≤ 2 ^ 40
      → tile.k < 4 * tile.n
      → pick_strategy tile n_sails local_ddr_bw_bytes_per_sec intercard_bw_bytes_per_sec
        ≡ model_parallel
  wide_is_model_parallel some small wide =
      let filled : 1 ≤ tile.m * tile.bytes_per_element * tile.n =
        one-le-mul some (omega (arith, wide)) in
      pick_strategy_wide tile n_sails local_ddr_bw_bytes_per_sec intercard_bw_bytes_per_sec p
        (omega arith) (omega arith) (omega arith) (omega arith) (omega arith) (omega arith)
        (omega arith) (omega (arith, filled)) (omega arith)

  -- On at least two and fewer than 2^53 sails, with the bandwidths of rev-A, for a tile whose element
  -- size and number of rows are not zero, whose byte counts are below 2^53 and whose `k` is at most
  -- 2^40, the choice is that of a rule on the shape: tensor-parallel where `k` is at least four times
  -- `n`, and otherwise model-parallel.
  pub pick_strategy-eq-rev_a_rule :
      0 < tile.m * tile.bytes_per_element
      → tile.k ≤ 2 ^ 40
      → pick_strategy tile n_sails local_ddr_bw_bytes_per_sec intercard_bw_bytes_per_sec
        ≡ rev_a_rule tile
  pick_strategy-eq-rev_a_rule some small = elim (Bool-cases (leb (4 * tile.n) tile.k)) [
    | inl deep ↦ rw deep (deep_is_tensor_parallel (ground arith))
    | inr wide ↦ rw wide (wide_is_model_parallel some small (ground arith))
  ]
