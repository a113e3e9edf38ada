-- ===== src/Scheduler/Decision/Seconds.antt =====
-- src/scheduler/src/decision.rs, `pick_strategy`: the choice in terms of the exact weight and
-- activation times, bytes over bandwidth, which are compared as fractions, without rounding.
use native.Mathlib.Nat.{mul-le-mul_right}
use spanker.Common.{
  ℕ, zero, suc, ◌+◌, ◌*◌, ◌^◌, ◌≤◌, ◌<◌, ◌≡◌, refl, ◌∙◌, ◌⊎◌, inl, inr, true, false, eq_false,
  word_max, saturating_mul-le, arith,
}
use spanker.Float64.{of_u64, div, finite, one_units, round_units, rounded, add, le}
use spanker.Float64.Numbers.{of_units_small}
use spanker.Float64.Rounding.{round_units_mono}
use spanker.Float64.Accuracy.{IsNear, round_units-IsNear, of_u64-IsNear, div-IsNear}
use spanker.Scheduler.Decision.{
  TileShape, tensor_parallel, model_parallel, weight_bytes, activation_bytes, seconds, tp_cost,
  mp_cost, pick_strategy,
}
use spanker.Scheduler.Decision.Choice.{pick_strategy_many}
use spanker.Scheduler.Decision.Margin.{seconds_pos, seconds_order, tp_sum_le, mp_sum_le}

-- A number of units that is zero or well inside the range of values.
abbrev pub IsSized : ℕ → Type 0
IsSized v = ((v ≡ 0) ⊎ (one_units ≤ 2 ^ 120 * v)) × (v ≤ 2 ^ 70 * one_units)

quotient-IsSized :
    (v bw bytes : ℕ)
    → 0 < bw
    → bw ≤ word_max
    → bytes ≤ word_max
    → IsNear 5 (v * bw) (bytes * one_units)
    → IsSized v
quotient-IsSized v bw zero p h b near =
    let low = mul-le-mul_right v p in (inl (omega (arith, low)), omega (arith, low))
quotient-IsSized v bw (suc bytes) p h b near =
    let low = mul-le-mul_right v p in
    let high = mul-le-mul_right v h in (inr (omega (arith, high)), omega (arith, low))

pub seconds-IsNear :
    (bytes bw : ℕ)
    → bytes ≤ word_max
    → 0 < bw
    → bw ≤ word_max
    → (v : ℕ) × (seconds bytes bw ≡ finite v) × IsNear 5 (v * bw) (bytes * one_units) × IsSized v
unfolding seconds
seconds-IsNear bytes bw b p h =
    let (x, e, (hi, lo)) = of_u64-IsNear bytes b in
    let sized : (x ≡ 0) ⊎ (one_units ≤ 2 ^ 120 * x) = ground arith in
    let (v, q, (above, below)) = div-IsNear x bw p h sized (omega arith) in
    let near : IsNear 5 (v * bw) (bytes * one_units) = (omega arith, omega arith) in
    (v, rw (eq_false bw 0 (omega arith), e) q, near, quotient-IsSized v bw bytes p h b near)

share_small :
    (v n share : ℕ)
    → 0 < n
    → v ≤ 2 ^ 70 * one_units
    → IsNear 3 (share * n) v
    → share ≤ 2 ^ 71 * one_units
share_small v n share p h near = omega (arith, mul-le-mul_right share p)

sum_value :
    (x y : ℕ)
    → x ≤ 2 ^ 71 * one_units
    → y ≤ 2 ^ 71 * one_units
    → add (finite x) (finite y) ≡ finite (round_units (x + y) 1)
unfolding add rounded
sum_value x y hx hy =
    let (hi, lo) = round_units-IsNear (x + y) 1 (omega arith) (inl refl) in
    of_units_small (round_units (x + y) 1) (omega arith)

-- On at least two sails the two costs are the rounded sums of the seconds and their shares.
pub cost_values :
    (w a n : ℕ)
    → 2 ≤ n
    → n ≤ word_max
    → IsSized w
    → IsSized a
    → (share_w : ℕ) × (share_a : ℕ) × IsNear 3 (share_w * n) w
      × IsNear 3 (share_a * n) a
      × (tp_cost (finite w) (finite a) n ≡ finite (round_units (share_w + a) 1))
      × (mp_cost (finite w) (finite a) n ≡ finite (round_units (w + share_a) 1))
      × (div (finite w) (of_u64 n) ≡ finite share_w)
      × (div (finite a) (of_u64 n) ≡ finite share_a)
unfolding tp_cost mp_cost
cost_values w a n p h (sw, bw) (sa, ba) =
    let (x, ex, nx) = div-IsNear w n (omega arith) h sw bw in
    let (y, ey, ny) = div-IsNear a n (omega arith) h sa ba in
    let hx = share_small w n x (omega arith) bw nx in
    let hy = share_small a n y (omega arith) ba ny in
    (
      x,
      y,
      nx,
      ny,
      rw ex (sum_value x a hx (omega arith)),
      rw ey (sum_value w y (omega arith) hy),
      ex,
      ey,
    )

pub weight_bytes-le : (tile : TileShape) → weight_bytes tile ≤ word_max
unfolding weight_bytes
weight_bytes-le tile = saturating_mul-le _ tile.bytes_per_element

pub activation_bytes-le : (tile : TileShape) → activation_bytes tile ≤ word_max
unfolding activation_bytes
activation_bytes-le tile = saturating_mul-le _ tile.bytes_per_element

-- A sum that is clearly larger rounds to a larger value.
rounded_lt : (x y : ℕ) → 0 < y → (2 ^ 45 + 1) * x ≤ 2 ^ 45 * y → round_units x 1 < round_units y 1
rounded_lt x y p h = omega (
  arith,
  round_units-IsNear x 1 (omega arith) (inl refl),
  round_units-IsNear y 1 (omega arith) (inl refl),
)

pub le_finite : (x y : ℕ) → x ≤ y → le (finite x) (finite y) ≡ true
unfolding le
le_finite x y h = ground arith

gt_finite : (x y : ℕ) → y < x → le (finite x) (finite y) ≡ false
unfolding le
gt_finite x y h = ground arith

module _ (tile : TileShape) (n_sails local_ddr_bw intercard_bw : ℕ) (p : 2 ≤ n_sails)
    (h : n_sails ≤ word_max) (pd : 0 < local_ddr_bw) (hd : local_ddr_bw ≤ word_max)
    (pc : 0 < intercard_bw) (hc : intercard_bw ≤ word_max) where
  -- Tensor-parallel where the activation time is clearly below the weight time.
  pub tensor_parallel_times :
      (2 ^ 40 + 1) * (activation_bytes tile * local_ddr_bw)
        ≤ 2 ^ 40 * (weight_bytes tile * intercard_bw)
      → pick_strategy tile n_sails local_ddr_bw intercard_bw ≡ tensor_parallel
  tensor_parallel_times shorter =
      let (w, ew, nw, sw) =
        seconds-IsNear (weight_bytes tile) local_ddr_bw (weight_bytes-le tile) pd hd in
      let (a, ea, na, sa) =
        seconds-IsNear (activation_bytes tile) intercard_bw (activation_bytes-le tile) pc hc in
      let (x, y, nx, ny, etp, emp, ex, ey) = cost_values w a n_sails p h sw sa in
      let order =
        seconds_order w (weight_bytes tile) local_ddr_bw a (activation_bytes tile) intercard_bw pd
          pc nw na shorter in
      let sums = tp_sum_le w a x y n_sails p nx ny order in
      let costs =
        round_units_mono (x + a) 1 (w + y) 1 (omega arith) (omega arith) (omega (arith, sums)) in
      pick_strategy_many tile n_sails local_ddr_bw intercard_bw p
      ∙ rw (ew, ea, etp, emp, le_finite _ _ costs) refl

  -- Model-parallel where the weight time is clearly below the activation time.
  pub model_parallel_times :
      0 < activation_bytes tile * local_ddr_bw
      → (2 ^ 40 + 1) * (weight_bytes tile * intercard_bw)
        ≤ 2 ^ 40 * (activation_bytes tile * local_ddr_bw)
      → pick_strategy tile n_sails local_ddr_bw intercard_bw ≡ model_parallel
  model_parallel_times pos shorter =
      let (w, ew, nw, sw) =
        seconds-IsNear (weight_bytes tile) local_ddr_bw (weight_bytes-le tile) pd hd in
      let (a, ea, na, sa) =
        seconds-IsNear (activation_bytes tile) intercard_bw (activation_bytes-le tile) pc hc in
      let (x, y, nx, ny, etp, emp, ex, ey) = cost_values w a n_sails p h sw sa in
      let order =
        seconds_order a (activation_bytes tile) intercard_bw w (weight_bytes tile) local_ddr_bw pc
          pd na nw shorter in
      let sums = mp_sum_le w a x y n_sails p nx ny order in
      let some = seconds_pos a intercard_bw (activation_bytes tile) local_ddr_bw pos na in
      let costs = rounded_lt (w + y) (x + a) (omega arith) sums in
      pick_strategy_many tile n_sails local_ddr_bw intercard_bw p
      ∙ rw (ew, ea, etp, emp, gt_finite _ _ costs) refl
