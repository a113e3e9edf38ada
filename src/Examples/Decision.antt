-- ===== src/Examples/Decision.antt =====
-- The theorems about src/scheduler/src/decision.rs at concrete tiles.
use spanker.Common.{ℕ, ◌≡◌, ◌^◌, ◌-◌, refl, inr, arith}
use spanker.Scheduler.Bandwidth.{local_ddr_bw_bytes_per_sec, intercard_bw_bytes_per_sec}
use spanker.Float64.{add, div, le, of_u64}
use spanker.Scheduler.Decision.{
  Strategy, tensor_parallel, model_parallel, TileShape, weight_bytes, activation_bytes, seconds,
  tp_cost, mp_cost, pick_strategy,
}
use spanker.Scheduler.Decision.Exact.{
  pick_strategy_cheaper_tp, pick_strategy_cheaper_mp, pick_strategy_deep, pick_strategy_wide,
}
use spanker.Scheduler.Decision.RevA.{rev_a_rule, pick_strategy-eq-rev_a_rule}
use spanker.Scheduler.Decision.Optimal.{pick_strategy_optimal}
use spanker.Scheduler.Decision.Choice.{
  ChoiceOutcome, pick_strategy-cases, pick_strategy_zero_bandwidth,
}

abbrev tile : (m n k bytes_per_element : ℕ) → TileShape
tile m n k bytes_per_element = record { m = m; n = n; k = k; bytes_per_element = bytes_per_element }

-- `pick_strategy` on the rev-A bandwidths.
abbrev on_rev_a : TileShape → ℕ → Strategy
on_rev_a t n_sails = pick_strategy t n_sails local_ddr_bw_bytes_per_sec intercard_bw_bytes_per_sec

saturated : on_rev_a (tile (2 ^ 64 - 1) (2 ^ 64 - 1) (2 ^ 64 - 1) 4) 4 ≡ model_parallel
unfolding pick_strategy weight_bytes activation_bytes seconds tp_cost mp_cost add div le of_u64
saturated = refl

pick_strategy-cases_example :
    ChoiceOutcome (tile 1 5632 2048 2) 4 local_ddr_bw_bytes_per_sec intercard_bw_bytes_per_sec
pick_strategy-cases_example =
    pick_strategy-cases (tile 1 5632 2048 2) 4 local_ddr_bw_bytes_per_sec intercard_bw_bytes_per_sec
      (omega arith) (omega arith) (omega arith)

pick_strategy_zero_bandwidth_example :
    pick_strategy (tile 4096 4096 4 4) 4 local_ddr_bw_bytes_per_sec 0 ≡ tensor_parallel
pick_strategy_zero_bandwidth_example =
    pick_strategy_zero_bandwidth (tile 4096 4096 4 4) 4 local_ddr_bw_bytes_per_sec 0 (omega arith)
      (omega arith) (omega arith) (inr refl)

pick_strategy_cheaper_tp_example : on_rev_a (tile 4 4 (2 ^ 20) 4) 4 ≡ tensor_parallel
unfolding weight_bytes activation_bytes
pick_strategy_cheaper_tp_example =
    pick_strategy_cheaper_tp (tile 4 4 (2 ^ 20) 4) 4 local_ddr_bw_bytes_per_sec
      intercard_bw_bytes_per_sec (omega arith) (omega arith) (omega arith) (omega arith)
      (omega arith) (omega arith) (omega arith)

pick_strategy_cheaper_mp_example : on_rev_a (tile 1 5632 2048 2) 4 ≡ model_parallel
unfolding weight_bytes activation_bytes
pick_strategy_cheaper_mp_example =
    pick_strategy_cheaper_mp (tile 1 5632 2048 2) 4 local_ddr_bw_bytes_per_sec
      intercard_bw_bytes_per_sec (omega arith) (omega arith) (omega arith) (omega arith)
      (omega arith) (omega arith) (omega arith)

pick_strategy_deep_example : on_rev_a (tile 4096 4 (2 ^ 20) 4) 7 ≡ tensor_parallel
pick_strategy_deep_example =
    pick_strategy_deep (tile 4096 4 (2 ^ 20) 4) 7 local_ddr_bw_bytes_per_sec
      intercard_bw_bytes_per_sec (omega arith) (omega arith) (omega arith) (omega arith)
      (omega arith) (omega arith) (omega arith) (omega arith) (omega arith)

-- The TinyLlama up-projection with 512 tokens at once.
pick_strategy_wide_example : on_rev_a (tile 512 5632 2048 2) 4 ≡ model_parallel
pick_strategy_wide_example =
    pick_strategy_wide (tile 512 5632 2048 2) 4 local_ddr_bw_bytes_per_sec
      intercard_bw_bytes_per_sec (omega arith) (omega arith) (omega arith) (omega arith)
      (omega arith) (omega arith) (omega arith) (omega arith) (omega arith) (omega arith)

-- Both exact costs are the same, and neither is a whole number of seconds.
pick_strategy_optimal_example : on_rev_a (tile 3 7 28 4) 3 ≡ tensor_parallel
unfolding weight_bytes activation_bytes
pick_strategy_optimal_example =
    pick_strategy_optimal (tile 3 7 28 4) 3 local_ddr_bw_bytes_per_sec intercard_bw_bytes_per_sec
      (omega arith) (omega arith) (omega arith) (omega arith) (omega arith) (omega arith)
      (omega arith) (omega arith) (omega arith)

-- The TinyLlama up-projection with 512 tokens at once, by its shape.
pick_strategy-eq-rev_a_rule_example :
    on_rev_a (tile 512 5632 2048 2) 4 ≡ rev_a_rule (tile 512 5632 2048 2)
pick_strategy-eq-rev_a_rule_example =
    pick_strategy-eq-rev_a_rule (tile 512 5632 2048 2) 4 (omega arith) (omega arith) (omega arith)
      (omega arith) (omega arith) (omega arith)
