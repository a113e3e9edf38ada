-- ===== src/Scheduler/Decision/Exact.antt =====
-- src/scheduler/src/decision.rs, `pick_strategy`: the choice against the costs of the module's
-- cost model computed without rounding, from the byte counts of the code, which saturate; and what of
-- a tile's shape it depends on where they do not.
use native.Mathlib.Nat.{mul-le-mul_right, one-le-mul}
use spanker.Common.{
  ℕ, zero, suc, ◌+◌, ◌*◌, ◌^◌, ◌≤◌, ◌<◌, ◌≡◌, word_max, saturating_mul, saturating_mul_exact, arith,
}
use spanker.Scheduler.Decision.{
  TileShape, tensor_parallel, model_parallel, weight_bytes, activation_bytes, pick_strategy,
}
use spanker.Scheduler.Decision.Margin.{order_of_costs, costs_pos}
use spanker.Scheduler.Decision.Seconds.{tensor_parallel_times, model_parallel_times}

-- The exact costs of the cost model on `n` sails, weight bytes over `n * ddr` plus activation bytes
-- over `link`, and weight bytes over `ddr` plus activation bytes over `n * link`, both times
-- `n * ddr * link`.
abbrev pub exact_tp_cost : (tile : TileShape) (n ddr link : ℕ) → ℕ
exact_tp_cost tile n ddr link = weight_bytes tile * link + n * (activation_bytes tile * ddr)

abbrev pub exact_mp_cost : (tile : TileShape) (n ddr link : ℕ) → ℕ
exact_mp_cost tile n ddr link = n * (weight_bytes tile * link) + activation_bytes tile * ddr

pub bytes_exact :
    (a b c : ℕ) → a * b * c ≤ word_max → saturating_mul (saturating_mul a b) c ≡ a * b * c
bytes_exact a b zero h =
    let e = saturating_mul_exact (saturating_mul a b) 0 (omega arith) in omega (arith, e)
bytes_exact a b (suc c) h =
    rw (saturating_mul_exact a b (omega arith)) (saturating_mul_exact (a * b) (suc c) h)

module _ (tile : TileShape) (n_sails local_ddr_bw intercard_bw : ℕ) (p : 2 ≤ n_sails)
    (h : n_sails ≤ word_max) (pd : 0 < local_ddr_bw) (hd : local_ddr_bw ≤ word_max)
    (pc : 0 < intercard_bw) (hc : intercard_bw ≤ word_max) where
  -- On at least two sails and with positive bandwidths, all of them `u64`, a tile is tensor-parallel
  -- where the tensor-parallel cost of its byte counts, computed without rounding, is smaller than
  -- the model-parallel one by at least one part in 2^40: rounding does not change the choice.
  pub pick_strategy_cheaper_tp :
      (2 ^ 40 + 1) * exact_tp_cost tile n_sails local_ddr_bw intercard_bw
        ≤ 2 ^ 40 * exact_mp_cost tile n_sails local_ddr_bw intercard_bw
      → pick_strategy tile n_sails local_ddr_bw intercard_bw ≡ tensor_parallel
  pick_strategy_cheaper_tp cheaper =
      tensor_parallel_times tile n_sails local_ddr_bw intercard_bw p h pd hd pc hc (
        order_of_costs (weight_bytes tile * intercard_bw) (activation_bytes tile * local_ddr_bw)
          n_sails p cheaper)

  -- On at least two sails and with positive bandwidths, all of them `u64`, a tile is model-parallel
  -- where the exact model-parallel cost is smaller than the exact tensor-parallel one by more than
  -- one part in 2^40.
  pub pick_strategy_cheaper_mp :
      (2 ^ 40 + 1) * exact_mp_cost tile n_sails local_ddr_bw intercard_bw
        < 2 ^ 40 * exact_tp_cost tile n_sails local_ddr_bw intercard_bw
      → pick_strategy tile n_sails local_ddr_bw intercard_bw ≡ model_parallel
  pick_strategy_cheaper_mp cheaper =
      let weight = weight_bytes tile * intercard_bw in
      let activation = activation_bytes tile * local_ddr_bw in
      model_parallel_times tile n_sails local_ddr_bw intercard_bw p h pd hd pc hc
        (costs_pos activation weight n_sails p (omega (arith, cheaper)))
        (order_of_costs activation weight n_sails p (omega (arith, cheaper)))

  -- On at least two sails and with positive bandwidths, all of them `u64`: a tile whose byte counts
  -- do not exceed `u64` and whose `n` over the inter-card bandwidth is below its `k` over the DDR
  -- bandwidth, by at least one part in 2^40, is tensor-parallel, whatever its `m` and element size.
  pub pick_strategy_deep :
      tile.m * tile.k * tile.bytes_per_element ≤ word_max
      → tile.m * tile.n * tile.bytes_per_element ≤ word_max
      → (2 ^ 40 + 1) * (tile.n * local_ddr_bw) ≤ 2 ^ 40 * (tile.k * intercard_bw)
      → pick_strategy tile n_sails local_ddr_bw intercard_bw ≡ tensor_parallel
  unfolding weight_bytes activation_bytes
  pick_strategy_deep fits_w fits_a deep =
      let scaled = mul-le-mul_right (tile.m * tile.bytes_per_element) deep in
      tensor_parallel_times tile n_sails local_ddr_bw intercard_bw p h pd hd pc hc (
        rw
          (
            bytes_exact tile.m tile.k tile.bytes_per_element fits_w,
            bytes_exact tile.m tile.n tile.bytes_per_element fits_a,
          )
          (omega (arith, scaled)))

  -- On at least two sails and with positive bandwidths, all of them `u64`: a tile whose byte counts
  -- do not exceed `u64`, whose activation bytes are not zero, and whose `k` over the DDR bandwidth
  -- is below its `n` over the inter-card bandwidth, by at least one part in 2^40, is
  -- model-parallel, whatever its `m` and element size.
  pub pick_strategy_wide :
      tile.m * tile.k * tile.bytes_per_element ≤ word_max
      → tile.m * tile.n * tile.bytes_per_element ≤ word_max
      → 0 < tile.m * tile.n * tile.bytes_per_element
      → (2 ^ 40 + 1) * (tile.k * intercard_bw) ≤ 2 ^ 40 * (tile.n * local_ddr_bw)
      → pick_strategy tile n_sails local_ddr_bw intercard_bw ≡ model_parallel
  unfolding weight_bytes activation_bytes
  pick_strategy_wide fits_w fits_a some wide =
      let scaled = mul-le-mul_right (tile.m * tile.bytes_per_element) wide in
      let e = bytes_exact tile.m tile.n tile.bytes_per_element fits_a in
      model_parallel_times tile n_sails local_ddr_bw intercard_bw p h pd hd pc hc
        (rw e (one-le-mul some pd))
        (rw (bytes_exact tile.m tile.k tile.bytes_per_element fits_w, e) (omega (arith, scaled)))
