-- ===== src/Scheduler/Decision.antt =====
-- src/scheduler/src/decision.rs: the choice between tensor-parallel and model-parallel.
pub mod Choice
pub mod Margin
pub mod Seconds
pub mod Exact
pub mod Optimal
pub mod RevA
use spanker.Common.{ℕ, ◌==◌, ltb, if◌then◌else◌, saturating_mul}
use spanker.Float64
use spanker.Float64.{F64, infinity}

pub data Strategy : Type 0 where
  tensor_parallel : Strategy
  model_parallel : Strategy

pub record TileShape : Type 0 where
  pub m : ℕ
  pub n : ℕ
  pub k : ℕ
  pub bytes_per_element : ℕ

unfoldable pub weight_bytes : TileShape → ℕ
unfolding saturating_mul
weight_bytes tile = saturating_mul (saturating_mul tile.m tile.k) tile.bytes_per_element

unfoldable pub activation_bytes : TileShape → ℕ
unfolding saturating_mul
activation_bytes tile = saturating_mul (saturating_mul tile.m tile.n) tile.bytes_per_element

unfoldable pub seconds : ℕ → ℕ → F64
seconds bytes bw =
    if bw == 0 then infinity else Float64.div (Float64.of_u64 bytes) (Float64.of_u64 bw)

-- The two costs of a tile on `n` sails, from the weight and the activation seconds.
unfoldable pub tp_cost : F64 → F64 → ℕ → F64
tp_cost weight activation n = Float64.add (Float64.div weight (Float64.of_u64 n)) activation

unfoldable pub mp_cost : F64 → F64 → ℕ → F64
mp_cost weight activation n = Float64.add weight (Float64.div activation (Float64.of_u64 n))

unfoldable pub pick_strategy : TileShape → (n_sails local_ddr_bw intercard_bw : ℕ) → Strategy
pick_strategy tile n_sails local_ddr_bw intercard_bw =
    let n = if ltb n_sails 1 then 1 else n_sails in
    if n == 1
    then tensor_parallel
    else let weight = seconds (weight_bytes tile) local_ddr_bw in
      let activation = seconds (activation_bytes tile) intercard_bw in
      if Float64.le (tp_cost weight activation n) (mp_cost weight activation n)
      then tensor_parallel
      else model_parallel
