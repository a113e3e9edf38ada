-- ===== src/Examples/Tiles.antt =====
-- The unit tests of src/scheduler/src/decision.rs, each as the conjunction of its assertions.
use spanker.Common.{ℕ, word_max, ◌^◌, ◌*◌, ◌≡◌, refl, Bool, true, false, ◌&&◌, ◌==◌}
use spanker.Scheduler.Bandwidth.{local_ddr_bw_bytes_per_sec, intercard_bw_bytes_per_sec}
use spanker.Float64.{add, div, le, of_u64}
use spanker.Scheduler.Decision.{
  Strategy, tensor_parallel, model_parallel, TileShape, weight_bytes, activation_bytes, seconds,
  tp_cost, mp_cost, pick_strategy,
}

-- The derived `==` of the strategies.
abbrev equal : Strategy → Strategy → Bool
equal tensor_parallel tensor_parallel = true
equal model_parallel model_parallel = true
equal _ _ = false

abbrev tile : (m n k bytes_per_element : ℕ) → TileShape
tile m n k bytes_per_element = record { m = m; n = n; k = k; bytes_per_element = bytes_per_element }

abbrev chosen : TileShape → ℕ → Strategy
chosen t n_sails = pick_strategy t n_sails local_ddr_bw_bytes_per_sec intercard_bw_bytes_per_sec

abbrev pick_strategy_returns_tp_when_activation_dominates : Bool
pick_strategy_returns_tp_when_activation_dominates =
    equal (chosen (tile 4 4 (2 ^ 20) 4) 4) tensor_parallel

abbrev pick_strategy_returns_mp_when_weights_dominate : Bool
pick_strategy_returns_mp_when_weights_dominate =
    equal (chosen (tile 4096 4096 4 4) 4) model_parallel

abbrev pick_strategy_n_sails_1_returns_tp : Bool
pick_strategy_n_sails_1_returns_tp = equal (chosen (tile 1024 1024 1024 4) 1) tensor_parallel

abbrev pick_strategy_n_sails_0_treated_as_1 : Bool
pick_strategy_n_sails_0_treated_as_1 = equal (chosen (tile 1024 1024 1024 4) 0) tensor_parallel

abbrev pick_strategy_with_bandwidth_overrides : Bool
pick_strategy_with_bandwidth_overrides =
    let weight_biased = tile 4 4 (2 ^ 16) 4 in
    equal (chosen (tile 1 1024 1024 4) 4) model_parallel
    && equal (chosen weight_biased 4) tensor_parallel
    && equal (pick_strategy weight_biased 4 1_000_000_000 1_000) model_parallel

abbrev pick_strategy_for_tinyllama_decode_step : Bool
pick_strategy_for_tinyllama_decode_step = equal (chosen (tile 1 5632 2048 2) 4) model_parallel

-- The test only asks for a strategy.
abbrev pick_strategy_saturates_on_overflow_inputs : Strategy
pick_strategy_saturates_on_overflow_inputs = chosen (tile word_max word_max word_max 4) 4

abbrev pick_strategy_with_zero_bandwidth_picks_tp_default : Bool
pick_strategy_with_zero_bandwidth_picks_tp_default =
    equal (pick_strategy (tile 16 16 16 4) 4 0 0) tensor_parallel

abbrev tile_shape_byte_helpers : Bool
tile_shape_byte_helpers =
    let t = tile 8 16 32 2 in (weight_bytes t == 8 * 32 * 2) && (activation_bytes t == 8 * 16 * 2)

all_pass :
    (pick_strategy_returns_tp_when_activation_dominates
      && pick_strategy_returns_mp_when_weights_dominate
      && pick_strategy_n_sails_1_returns_tp
      && pick_strategy_n_sails_0_treated_as_1
      && pick_strategy_with_bandwidth_overrides
      && pick_strategy_for_tinyllama_decode_step
      && pick_strategy_with_zero_bandwidth_picks_tp_default
      && tile_shape_byte_helpers
      && equal pick_strategy_saturates_on_overflow_inputs model_parallel)
    ≡ true
unfolding pick_strategy weight_bytes activation_bytes seconds tp_cost mp_cost add div le of_u64
all_pass = refl
