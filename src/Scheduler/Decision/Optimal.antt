-- ===== src/Scheduler/Decision/Optimal.antt =====
-- src/scheduler/src/decision.rs, `pick_strategy`: where all numbers have at most 53 bits, rounding never
-- turns the choice away from a tensor-parallel strategy that is exactly as cheap.
use native.Mathlib.Nat.{mul-le-mul_right}
use spanker.Common.{
  ℕ, ◌+◌, ◌*◌, ◌^◌, ◌≤◌, ◌<◌, ◌≡◌, refl, sym, ap, ◌∙◌, inl, inr, ltb, ltb→lt, ltb→ge, Bool-cases,
  eq_false, arith,
}
use spanker.Float64.{finite, one_units, round_units, of_units, rounded, of_u64, div}
use spanker.Float64.Numbers.{of_units_small}
use spanker.Float64.Rounding.{round_units_mono, round_units_eq}
use spanker.Float64.Values.{IsValue, round_exact, round_units-IsValue, whole-IsValue}
use spanker.Float64.Shares.{shares_le}
use spanker.Scheduler.Decision.{
  TileShape, tensor_parallel, weight_bytes, activation_bytes, seconds, pick_strategy,
}
use spanker.Scheduler.Decision.Exact.{exact_tp_cost, exact_mp_cost}
use spanker.Scheduler.Decision.Choice.{pick_strategy_many}
use spanker.Scheduler.Decision.Margin.{exact_order}
use spanker.Scheduler.Decision.Seconds.{
  IsSized, seconds-IsNear, cost_values, le_finite, weight_bytes-le, activation_bytes-le,
}

finite_of_units : (u v : ℕ) → of_units u ≡ finite v → u ≡ v
unfolding of_units
finite_of_units u v e = ground arith

-- `as f64` is exact up to 53 bits.
of_u64_exact : (n : ℕ) → n < 2 ^ 53 → of_u64 n ≡ finite (n * one_units)
unfolding of_u64 rounded
of_u64_exact n h =
    rw (round_exact (n * one_units) (whole-IsValue n h))
      (of_units_small (n * one_units) (omega arith))

-- A quotient by a word of up to 53 bits is the rounded fraction.
div_exact :
    (x n v : ℕ) → 0 < n → n < 2 ^ 53 → div (finite x) (of_u64 n) ≡ finite v → v ≡ round_units x n
unfolding div rounded
div_exact x n v p h e =
    let quotient = rw (of_u64_exact n h, eq_false (n * one_units) 0 (omega arith)) at e in
    sym (finite_of_units (round_units (x * one_units) (n * one_units)) v quotient)
    ∙ round_units_eq (x * one_units) (n * one_units) x n (omega arith) p (omega arith)

-- The seconds are the rounded fraction of bytes and bandwidth.
seconds_exact :
    (bytes bw v : ℕ)
    → bytes < 2 ^ 53
    → 0 < bw
    → bw < 2 ^ 53
    → seconds bytes bw ≡ finite v
    → v ≡ round_units (bytes * one_units) bw
unfolding seconds
seconds_exact bytes bw v hb p h e =
    div_exact (bytes * one_units) bw v p h
      (rw (eq_false bw 0 (omega arith), of_u64_exact bytes hb) at e)

-- The sums that are compared stand as the seconds do.
sums_le :
    (w a n : ℕ)
    → IsValue w
    → IsValue a
    → IsSized a
    → 2 ≤ n
    → a ≤ w
    → round_units w n + a ≤ w + round_units a n
sums_le w a n vw va (sized, bound) p h = elim (Bool-cases (ltb a w)) [
  | inr same ↦
      let e : a ≡ w = omega (arith, ltb→ge a w same) in
      omega (arith, e, ap (λ t. round_units t n) e)
  | inl less ↦ elim sized [
    | inr large ↦ shares_le w a vw va (ltb→lt a w less) (omega (arith, large)) n p
    | inl none ↦ let share : round_units w n ≤ w = share_le in omega (arith, none, share)
  ]
]
  where
    share_le : round_units w n ≤ w
    share_le =
        let top =
          round_units_mono w n w 1 (omega arith) (omega arith)
            (omega (arith, mul-le-mul_right w p)) in
        omega (arith, top, round_exact w vw)

-- On at least two sails and with positive bandwidths, and with all of these numbers and the tile's
-- byte counts below 2^53, a tile is tensor-parallel where the exact tensor-parallel cost is at most
-- the exact model-parallel one. So a choice of model-parallel means that it is exactly cheaper.
pub pick_strategy_optimal :
    (tile : TileShape) (n_sails local_ddr_bw intercard_bw : ℕ)
    → 2 ≤ n_sails
    → n_sails < 2 ^ 53
    → 0 < local_ddr_bw
    → local_ddr_bw < 2 ^ 53
    → 0 < intercard_bw
    → intercard_bw < 2 ^ 53
    → weight_bytes tile < 2 ^ 53
    → activation_bytes tile < 2 ^ 53
    → exact_tp_cost tile n_sails local_ddr_bw intercard_bw
      ≤ exact_mp_cost tile n_sails local_ddr_bw intercard_bw
    → pick_strategy tile n_sails local_ddr_bw intercard_bw ≡ tensor_parallel
pick_strategy_optimal tile n d c p h pd hd pc hc hw ha cheaper =
    let weight = weight_bytes tile in
    let activation = activation_bytes tile in
    let (w, ew, nw, sw) = seconds-IsNear weight d (weight_bytes-le tile) pd (omega arith) in
    let (a, ea, na, sa) = seconds-IsNear activation c (activation_bytes-le tile) pc (omega arith) in
    let (x, y, nx, ny, etp, emp, ex, ey) = cost_values w a n p (omega arith) sw sa in
    let w_is = seconds_exact weight d w hw pd hd ew in
    let a_is = seconds_exact activation c a ha pc hc ea in
    let x_is = div_exact w n x (omega arith) h ex in
    let y_is = div_exact a n y (omega arith) h ey in
    let times : activation * d ≤ weight * c =
      exact_order (weight * c) (activation * d) n p cheaper in
    let order : a ≤ w =
      rw (w_is, a_is)
        (round_units_mono (activation * one_units) c (weight * one_units) d pc pd
          (omega (arith, times))) in
    let vw : IsValue w = rw w_is (round_units-IsValue (weight * one_units) d pd) in
    let va : IsValue a = rw a_is (round_units-IsValue (activation * one_units) c pc) in
    let sums : x + a ≤ w + y = rw (x_is, y_is) (sums_le w a n vw va sa p order) in
    let costs =
      round_units_mono (x + a) 1 (w + y) 1 (omega arith) (omega arith) (omega (arith, sums)) in
    pick_strategy_many tile n d c p ∙ rw (ew, ea, etp, emp, le_finite _ _ costs) refl
