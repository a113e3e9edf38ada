-- ===== src/Scheduler/Collective/MeanError.antt =====
-- src/scheduler/src/collective.rs, `all_reduce_f32` with `Avg` on binary32: how far rounding takes it from
-- the exact mean.
use mathlib.Core.List.{foldl}
use mathlib.Core.Option.{some-injective}
use native.Mathlib.Nat.{mul-le-mul_left, pow-suc}
use spanker.Common.{
  ℕ, ◌+◌, ◌*◌, ◌^◌, ◌≤◌, ◌≡◌, refl, some, List, ◌∷◌, length, get_elem?, All, ok, arith,
}
use spanker.Float32.{F32, finite, infinity, nan, add, div, of_usize}
use spanker.Float32.Error.{IsFinite, above_zero, below_zero, distance, div_error}
use spanker.Scheduler.Topology.{Topology, MockSail}
use spanker.Scheduler.Collective.{avg, all_reduce_f32}
use spanker.Scheduler.Collective.Reduce.{column, reduce_elements, reduce_column}
use spanker.Scheduler.Collective.Extremes.{all_reduce_f32-reduce_column}
use spanker.Scheduler.Collective.Single.{single}
use spanker.Scheduler.Collective.SumError.{
  parts, total_above, total_below, total_size, sum_error, reduced_sum_error,
}

-- What is not finite stays so.
div-IsFinite : (x y : F32) → IsFinite (div x y) → IsFinite x
unfolding div
div-IsFinite nan y f = f
div-IsFinite (infinity s) nan f = f
div-IsFinite (infinity s) (infinity t) f = f
div-IsFinite (infinity s) (finite t n) f = f
div-IsFinite (finite s m) y f = tt

-- How many units `n` times `r` is away from the exact sum of the elements.
abbrev pub mean_error : ℕ → List F32 → F32 → ℕ
mean_error n xs r = distance (n * above_zero r + total_below xs) (total_above xs + n * below_zero r)

-- The quotient of a sum that is off by the distance `d`.
error_step :
    (up down ax bx ar br half : ℕ)
    → parts * distance (ar + bx) (ax + br) ≤ distance ax bx + half
    → parts * distance (ar + down) (up + br)
      ≤ (parts + 1) * distance (ax + down) (up + bx) + (up + down) + half
error_step up down ax bx ar br half h = omega (arith, h)

-- The bounds of the parts put together.
scale_step :
    (p q d next size half : ℕ)
    → parts * next ≤ (parts + 1) * d + size + half
    → p * (d + size) ≤ q * size
    → p * parts * (next + size) ≤ q * (parts + 1) * size + p * half
scale_step p q d next size half h close = let a = mul-le-mul_left p h in omega (arith, a, close)

reduced_mean_error :
    (x : F32) (xs : List F32) (r : F32)
    → length (x ∷ xs) ≤ 2 ^ 24
    → All IsFinite (x ∷ xs)
    → IsFinite r
    → reduce_elements avg (x ∷ xs) ≡ some r
    → parts ^ length xs * parts * (mean_error (length (x ∷ xs)) (x ∷ xs) r + total_size (x ∷ xs))
      ≤ (parts + 1) ^ length xs * (parts + 1) * total_size (x ∷ xs)
        + parts ^ length xs * (2 ^ 23 * length (x ∷ xs))
unfolding reduce_elements
reduced_mean_error x xs r few fs fr e =
    let s = foldl add x xs in
    let n = length (x ∷ xs) in
    let all = x ∷ xs in
    let same : div s (of_usize n) ≡ r = some-injective _ r e in
    let quotient_finite : IsFinite (div s (of_usize n)) = rw same fr in
    let sum_finite = div-IsFinite s (of_usize n) quotient_finite in
    let close = reduced_sum_error x xs s fs sum_finite refl in
    let divided = div_error s n (omega arith) few sum_finite quotient_finite in
    let moved =
      error_step (total_above all) (total_below all) (above_zero s) (below_zero s)
        (n * above_zero (div s (of_usize n))) (n * below_zero (div s (of_usize n))) (2 ^ 23 * n)
        divided in
    rw (← same) (
      scale_step (parts ^ length xs) ((parts + 1) ^ length xs) (sum_error all s)
        (mean_error n all (div s (of_usize n))) (total_size all) (2 ^ 23 * n) moved close)

-- After an `Avg` reduction of `f32` buffers that succeeds, on at most 2^24 cards, where the cards'
-- elements at an index and the stored element are finite: `n` times the stored element, for `n` cards,
-- is away from the exact sum by at most ((1 + 2^-24)^n - 1) times the sum of the elements'
-- magnitudes, plus half of the smallest positive value for each card.
pub all_reduce_f32_mean_error :
    (t : Topology MockSail) (per_card buffers : List (List F32)) (i j : ℕ) (w : List F32) (x : F32)
    (xs : List F32) (r : F32)
    → all_reduce_f32 t per_card avg ≡ some (ok tt, buffers)
    → column j per_card ≡ some (x ∷ xs)
    → length (x ∷ xs) ≤ 2 ^ 24
    → All IsFinite (x ∷ xs)
    → get_elem? buffers i ≡ some w
    → get_elem? w j ≡ some r
    → IsFinite r
    → parts ^ length (x ∷ xs) * (mean_error (length (x ∷ xs)) (x ∷ xs) r + total_size (x ∷ xs))
      ≤ (parts + 1) ^ length (x ∷ xs) * total_size (x ∷ xs)
        + parts ^ length xs * (2 ^ 23 * length (x ∷ xs))
unfolding reduce_column
all_reduce_f32_mean_error t per_card buffers i j w x xs r result col few fs ew er fr =
    let reduced = all_reduce_f32-reduce_column t avg per_card buffers i j w r result ew er in
    let bound = reduced_mean_error x xs r few fs fr (rw col at reduced) in
    rw (pow-suc parts (length xs), pow-suc (parts + 1) (length xs)) bound
