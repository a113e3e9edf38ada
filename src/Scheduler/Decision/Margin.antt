-- ===== src/Scheduler/Decision/Margin.antt =====
-- src/scheduler/src/decision.rs: how the order of the exact costs carries over to the seconds and to
-- the sums that are compared. No definition of the model occurs here but the bound on errors.
use native.Mathlib.Nat.{mul-le-mul_right, le_of_mul-le-mul_right, one-le-mul}
use spanker.Common.{ℕ, zero, suc, ◌+◌, ◌*◌, ◌-◌, ◌^◌, ◌≤◌, ◌<◌, ◌≡◌, ap, arith}
use spanker.Float64.{one_units}
use spanker.Float64.Accuracy.{IsNear}

-- Of `x + n * y` and `n * x + y` the first is clearly smaller only where `y` is clearly below `x`.
pub order_of_costs :
    (x y n : ℕ)
    → 2 ≤ n
    → (2 ^ 40 + 1) * (x + n * y) ≤ 2 ^ 40 * (n * x + y)
    → (2 ^ 40 + 1) * y ≤ 2 ^ 40 * x
order_of_costs x y n p h =
    let e : n ≡ n - 1 + 1 = omega arith in
    let ex = ap (λ (t : ℕ). t * x) e in
    let ey = ap (λ (t : ℕ). t * y) e in
    le_of_mul-le-mul_right {k = n - 1} (omega (arith, h, ex, ey)) (omega arith)

-- It is at most the second one only where `y` is at most `x`.
pub exact_order : (x y n : ℕ) → 2 ≤ n → x + n * y ≤ n * x + y → y ≤ x
exact_order x y n p h =
    let e : n ≡ n - 1 + 1 = omega arith in
    let ex = ap (λ (t : ℕ). t * x) e in
    let ey = ap (λ (t : ℕ). t * y) e in
    le_of_mul-le-mul_right {k = n - 1} (omega (arith, h, ex, ey)) (omega arith)

-- And strictly smaller only where `x` is not zero.
pub costs_pos : (x y n : ℕ) → 2 ≤ n → (2 ^ 40 + 1) * (x + n * y) < 2 ^ 40 * (n * x + y) → 0 < x
costs_pos zero y n p h = absurd (omega (arith, mul-le-mul_right y p))
costs_pos (suc x) y n p h = omega arith

-- A positive number of bytes takes some time.
pub seconds_pos :
    (v bw bytes other : ℕ) → 0 < bytes * other → IsNear 5 (v * bw) (bytes * one_units) → 0 < v
seconds_pos v bw zero other h near = absurd (omega arith)
seconds_pos zero bw (suc bytes) other h near = absurd (omega arith)
seconds_pos (suc v) bw (suc bytes) other h near = omega arith

-- Seconds `w` of `weight` bytes at `d`, and `a` of `activation` bytes at `c`, stand as the fractions.
pub seconds_order :
    (w weight d a activation c : ℕ)
    → 0 < d
    → 0 < c
    → IsNear 5 (w * d) (weight * one_units)
    → IsNear 5 (a * c) (activation * one_units)
    → (2 ^ 40 + 1) * (activation * d) ≤ 2 ^ 40 * (weight * c)
    → (2 ^ 42 + 1) * a ≤ 2 ^ 42 * w
seconds_order w weight d a activation c pd pc hw ha h =
    let up = mul-le-mul_right d ha.0 in
    let down = mul-le-mul_right c hw.1 in
    le_of_mul-le-mul_right {k = c * d} (omega (arith, up, down, h)) (one-le-mul pc pd)

module _ (w a share_w share_a n : ℕ) (p : 2 ≤ n) (hw : IsNear 3 (share_w * n) w)
    (ha : IsNear 3 (share_a * n) a) where
  pub tp_sum_le : (2 ^ 42 + 1) * a ≤ 2 ^ 42 * w → share_w + a ≤ w + share_a
  tp_sum_le h =
      let e : w ≡ a + (w - a) = omega arith in
      let en = ap (λ (t : ℕ). t * n) e in
      let twice = mul-le-mul_right (w - a) p in
      le_of_mul-le-mul_right {k = n} (omega (arith, en, twice, h)) (omega arith)

  pub mp_sum_le :
      (2 ^ 42 + 1) * w ≤ 2 ^ 42 * a → (2 ^ 45 + 1) * (w + share_a) ≤ 2 ^ 45 * (share_w + a)
  mp_sum_le h =
      let e : a ≡ w + (a - w) = omega arith in
      let en = ap (λ (t : ℕ). t * n) e in
      let hn = mul-le-mul_right n h in
      let twice = mul-le-mul_right (a - w) p in
      le_of_mul-le-mul_right {k = n} (omega (arith, en, hn, twice, h)) (omega arith)
