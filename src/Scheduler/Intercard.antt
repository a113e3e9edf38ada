-- ===== src/Scheduler/Intercard.antt =====
-- src/scheduler/src/intercard.rs: the shape of an inter-card link.
use spanker.Common.{ℕ}

abbrev pub intercard_lanes : ℕ
intercard_lanes = 4

abbrev pub intercard_lane_width : ℕ
intercard_lane_width = 32

abbrev pub intercard_bus_width : ℕ
intercard_bus_width = 128

pub data LinkState : Type 0 where
  down : LinkState
  training : LinkState
  up : LinkState
  error : LinkState

pub record Link : Type 0 where
  pub local_sail : ℕ
  pub remote_sail : ℕ
  pub state : LinkState

abbrev pub new : ℕ → ℕ → LinkState → Link
new local_sail remote_sail state = record {
  local_sail = local_sail;
  remote_sail = remote_sail;
  state = state;
}
