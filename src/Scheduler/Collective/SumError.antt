-- ===== src/Scheduler/Collective/SumError.antt =====
-- src/scheduler/src/collective.rs, `all_reduce_f32` with `Sum` on binary32: how far rounding takes it from
-- the exact sum.
use mathlib.Core.List.{foldl}
use mathlib.Core.Option.{some-injective}
use native.Mathlib.Nat.{mul-le-mul_right, mul-le-mul_left, pow-succ'}
use spanker.Common.{
  ℕ, inl, inr, Bool-cases, suc, ◌+◌, ◌*◌, ◌^◌, ◌≤◌, ◌≡◌, refl, ap, some, List, [], ◌∷◌, length,
  get_elem?, All, ok, arith,
}
use spanker.Float32.{F32, finite, infinity, nan, differ, add}
use spanker.Float32.Error.{IsFinite, above_zero, below_zero, distance, add_error}
use spanker.Scheduler.Topology.{Topology, MockSail}
use spanker.Scheduler.Collective.{sum, all_reduce_f32}
use spanker.Scheduler.Collective.Reduce.{column, reduce_elements, reduce_column}
use spanker.Scheduler.Collective.Extremes.{all_reduce_f32-reduce_column}
use spanker.Scheduler.Collective.Single.{single}

-- An addition errs by at most one part in so many.
abbrev pub parts : ℕ
parts = 2 ^ 24

-- What is not finite stays so.
add-IsFinite : (x y : F32) → IsFinite (add x y) → IsFinite x
unfolding add
add-IsFinite nan y f = f
add-IsFinite (infinity s) nan f = f
add-IsFinite (infinity s) (infinity t) f = elim (Bool-cases (differ s t)) [
  | inl opposite ↦ rw opposite at f
  | inr alike ↦ rw alike at f
]
add-IsFinite (infinity s) (finite t n) f = f
add-IsFinite (finite s m) y f = tt

foldl-IsFinite : (x : F32) (xs : List F32) → IsFinite (foldl add x xs) → IsFinite x
foldl-IsFinite x [] f = f
foldl-IsFinite x (y ∷ xs) f = add-IsFinite x y (foldl-IsFinite (add x y) xs f)

-- The exact sum is `up` less `down` units, their sum is at least that of the magnitudes, and `x` is off
-- by at most `q / p - 1` of it.
abbrev IsClose : (p q up down : ℕ) → F32 → Type 0
IsClose p q up down x =
    p * (distance (above_zero x + down) (up + below_zero x) + (up + down)) ≤ q * (up + down)

-- A sum `r` of `x` and `y`, each the difference of two numbers of units.
error_step :
    (up down ax bx ay by ar br : ℕ)
    → parts * distance (ar + (bx + by)) (ax + ay + br) ≤ distance (ax + ay) (bx + by)
    → parts * distance (ar + (down + by)) (up + ay + br)
      ≤ (parts + 1) * distance (ax + down) (up + bx) + (up + down) + (ay + by)
error_step up down ax bx ay by ar br h = omega (arith, h)

-- The bounds of the parts put together.
scale_step :
    (p q d next size more both : ℕ)
    → p ≤ q
    → both ≡ size + more
    → parts * next ≤ (parts + 1) * d + size + more
    → p * (d + size) ≤ q * size
    → p * parts * (next + both) ≤ q * (parts + 1) * both
scale_step p q d next size more both pq e h close =
    let a = mul-le-mul_left p h in
    let b = mul-le-mul_right more pq in rw e (omega (arith, a, b, close))

-- One addition more.
IsClose-step :
    (p q up down : ℕ) (x y : F32)
    → p ≤ q
    → IsFinite x
    → IsFinite y
    → IsFinite (add x y)
    → IsClose p q up down x
    → IsClose (p * parts) (q * (parts + 1)) (up + above_zero y) (down + below_zero y) (add x y)
IsClose-step p q up down x y pq fx fy f close =
    let r = add x y in
    let linear =
      error_step up down (above_zero x) (below_zero x) (above_zero y) (below_zero y) (above_zero r)
        (below_zero r) (add_error x y fx fy f) in
    let scaled =
      scale_step p q (distance (above_zero x + down) (up + below_zero x))
        (distance (above_zero r + (down + below_zero y)) (up + above_zero y + below_zero r))
        (up + down) (above_zero y + below_zero y) (up + above_zero y + (down + below_zero y)) pq
        (omega arith) linear close in
    scaled

abbrev pub total_above : List F32 → ℕ
total_above [] = 0
total_above (x ∷ xs) = above_zero x + total_above xs

abbrev pub total_below : List F32 → ℕ
total_below [] = 0
total_below (x ∷ xs) = below_zero x + total_below xs

IsClose-at :
    {p q up down p_new q_new up_new down_new : ℕ} (x : F32)
    → p_new ≡ p
    → q_new ≡ q
    → up_new ≡ up
    → down_new ≡ down
    → IsClose p q up down x
    → IsClose p_new q_new up_new down_new x
IsClose-at x e1 e2 e3 e4 close = rw (e1, e2, e3, e4) close

pub one_more_power : (p n k : ℕ) → p * n ^ suc k ≡ p * n * n ^ k
one_more_power p n k = omega (arith, ap (λ (t : ℕ). p * t) (pow-succ' n k))

foldl-IsClose :
    (p q up down : ℕ) (x : F32) (xs : List F32)
    → p ≤ q
    → IsFinite x
    → All IsFinite xs
    → IsFinite (foldl add x xs)
    → IsClose p q up down x
    → IsClose
        (p * parts ^ length xs)
        (q * (parts + 1) ^ length xs)
        (up + total_above xs)
        (down + total_below xs)
        (foldl add x xs)
foldl-IsClose p q up down x [] pq fx fs f close =
    IsClose-at x (omega arith) (omega arith) (omega arith) (omega arith) close
foldl-IsClose p q up down x (y ∷ xs) pq fx (fy, fs) f close =
    let sum_finite = foldl-IsFinite (add x y) xs f in
    let next = IsClose-step p q up down x y pq fx fy sum_finite close in
    let rest =
      foldl-IsClose (p * parts) (q * (parts + 1)) (up + above_zero y) (down + below_zero y)
        (add x y) xs (omega (arith, pq)) sum_finite fs f next in
    IsClose-at (foldl add (add x y) xs) (one_more_power p parts (length xs))
      (one_more_power q (parts + 1) (length xs)) (omega arith) (omega arith) rest

pub reduced_sum_error :
    (x : F32) (xs : List F32) (r : F32)
    → All IsFinite (x ∷ xs)
    → IsFinite r
    → reduce_elements sum (x ∷ xs) ≡ some r
    → IsClose
        (parts ^ length xs)
        ((parts + 1) ^ length xs)
        (total_above (x ∷ xs))
        (total_below (x ∷ xs))
        r
unfolding reduce_elements
reduced_sum_error x xs r (fx, fs) fr e =
    let same : foldl add x xs ≡ r = some-injective _ r e in
    let start : IsClose 1 1 (above_zero x) (below_zero x) x = omega arith in
    let close =
      foldl-IsClose 1 1 (above_zero x) (below_zero x) x xs (omega arith) fx fs (rw same fr) start in
    rw (← same) (IsClose-at (foldl add x xs) (omega arith) (omega arith) refl refl close)

-- How many units `r` is away from the exact sum of the elements.
abbrev pub sum_error : List F32 → F32 → ℕ
sum_error xs r = distance (above_zero r + total_below xs) (total_above xs + below_zero r)

-- The sum of the elements' magnitudes, in units.
abbrev pub total_size : List F32 → ℕ
total_size xs = total_above xs + total_below xs

-- After a `Sum` reduction of `f32` buffers that succeeds, where the cards' elements at an index and the
-- stored element are finite: with `k` additions the stored element is away from the exact sum by at
-- most ((1 + 2^-24)^k - 1) times the sum of the elements' magnitudes.
pub all_reduce_f32_sum_error :
    (t : Topology MockSail) (per_card buffers : List (List F32)) (i j : ℕ) (w : List F32) (x : F32)
    (xs : List F32) (r : F32)
    → all_reduce_f32 t per_card sum ≡ some (ok tt, buffers)
    → column j per_card ≡ some (x ∷ xs)
    → All IsFinite (x ∷ xs)
    → get_elem? buffers i ≡ some w
    → get_elem? w j ≡ some r
    → IsFinite r
    → parts ^ length xs * (sum_error (x ∷ xs) r + total_size (x ∷ xs))
      ≤ (parts + 1) ^ length xs * total_size (x ∷ xs)
unfolding reduce_column
all_reduce_f32_sum_error t per_card buffers i j w x xs r result col fs ew er fr =
    let reduced = all_reduce_f32-reduce_column t sum per_card buffers i j w r result ew er in
    reduced_sum_error x xs r fs fr (rw col at reduced)
