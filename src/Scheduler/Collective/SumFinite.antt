-- ===== src/Scheduler/Collective/SumFinite.antt =====
-- src/scheduler/src/collective.rs, `all_reduce_f32` with `Sum` on binary32: when a sum does not overflow.
use mathlib.Core.List.{foldl}
use mathlib.Core.Option.{some-injective}
use native.Mathlib.Nat.{
  mul-le-mul, mul-le-mul_right, mul-le-mul_left, pow-suc, pow-le-pow_left, lt_of_mul-lt-mul_left,
}
use spanker.Common.{
  ℕ, ◌+◌, ◌-◌, ◌*◌, ◌^◌, ◌≤◌, ◌<◌, ◌≡◌, inl, inr, Bool, true, false, not, ltb, lt→ltb, Bool-cases,
  some, List, [], ◌∷◌, length, get_elem?, All, ok, arith,
}
use spanker.Float32.{
  F32, finite, infinity, nan, overflow_units, round_units, rounded, of_units, subtract, add,
}
use spanker.Float32.Error.{IsFinite, above_zero, below_zero, round_units_error}
use spanker.Scheduler.Topology.{Topology, MockSail}
use spanker.Scheduler.Collective.{sum, all_reduce_f32}
use spanker.Scheduler.Collective.Reduce.{column, reduce_elements, reduce_column}
use spanker.Scheduler.Collective.Extremes.{all_reduce_f32-reduce_column}
use spanker.Scheduler.Collective.Single.{single}
use spanker.Scheduler.Collective.SumError.{one_more_power, parts, total_size}

abbrev magnitude_of : F32 → ℕ
magnitude_of x = above_zero x + below_zero x

magnitude_finite : (s : Bool) (u : ℕ) → magnitude_of (finite s u) ≡ u
magnitude_finite false u = omega arith
magnitude_finite true u = omega arith

-- A value that may be `size` units, rounded once.
abbrev IsSmall : F32 → ℕ → Type 0
IsSmall x size = IsFinite x × (parts * magnitude_of x ≤ (parts + 1) * size)

module _ (size : ℕ) (room : (parts + 1) * size < parts * overflow_units) where
  rounded-IsSmall : (s : Bool) (u : ℕ) → u ≤ size → IsSmall (rounded s u 1) size
  unfolding rounded of_units
  rounded-IsSmall s u h =
      let error = round_units_error u in
      let small : round_units u 1 < overflow_units = omega (arith, error, h, room) in
      let whole = magnitude_finite s (round_units u 1) in
      rw (lt→ltb (round_units u 1) overflow_units small) (tt, omega (arith, error, h, whole))

  subtract-IsSmall : (s : Bool) (m n : ℕ) → m + n ≤ size → IsSmall (subtract s m n) size
  unfolding subtract
  subtract-IsSmall s m n h = elim (Bool-cases (ltb n m)) [
    | inl less ↦ rw less (rounded-IsSmall s (m - n) (omega (arith, h)))
    | inr other ↦ elim (Bool-cases (ltb m n)) [
      | inl more ↦ rw (other, more) (rounded-IsSmall (not s) (n - m) (omega (arith, h)))
      | inr same ↦ rw (other, same) (tt, omega arith)
    ]
  ]

  add-IsSmall :
      (x y : F32)
      → IsFinite x
      → IsFinite y
      → magnitude_of x + magnitude_of y ≤ size
      → IsSmall (add x y) size
  unfolding add
  add-IsSmall nan y fx fy h = absurd fx
  add-IsSmall (infinity s) y fx fy h = absurd fx
  add-IsSmall (finite s m) nan fx fy h = absurd fy
  add-IsSmall (finite s m) (infinity t) fx fy h = absurd fy
  add-IsSmall (finite false m) (finite false n) fx fy h =
      rounded-IsSmall false (m + n) (omega (arith, h))
  add-IsSmall (finite true m) (finite true n) fx fy h =
      rounded-IsSmall true (m + n) (omega (arith, h))
  add-IsSmall (finite false m) (finite true n) fx fy h =
      subtract-IsSmall false m n (omega (arith, h))
  add-IsSmall (finite true m) (finite false n) fx fy h =
      subtract-IsSmall true m n (omega (arith, h))

-- Where there is room for the sum of all elements after all additions, there is for the next one.
room_now :
    (p q a b now size all : ℕ)
    → p ≤ q
    → a ≤ b
    → p * now ≤ q * size
    → size ≤ all
    → q * (b * (parts + 1)) * all < p * (a * parts) * overflow_units
    → (parts + 1) * now < parts * overflow_units
room_now p q a b now size all pq ab h le room =
    let h1 = mul-le-mul_right a h in
    let h2 = mul-le-mul (mul-le-mul_left q le) ab in
    lt_of_mul-lt-mul_left (p * a) (omega (arith, h1, h2, room))

foldl_small :
    (p q size : ℕ) (x : F32) (xs : List F32)
    → p ≤ q
    → IsFinite x
    → p * magnitude_of x ≤ q * size
    → All IsFinite xs
    → q * (parts + 1) ^ length xs * (size + total_size xs) < p * parts ^ length xs * overflow_units
    → IsFinite (foldl add x xs)
foldl_small p q size x [] pq fx h fs room = fx
foldl_small p q size x (y ∷ xs) pq fx h (fy, fs) room =
    let l = length xs in
    let now = magnitude_of x + magnitude_of y in
    let more = size + magnitude_of y in
    let scaled : p * now ≤ q * more = omega (arith, h, mul-le-mul_right (magnitude_of y) pq) in
    let all : size + total_size (y ∷ xs) ≡ more + total_size xs = omega arith in
    let fits : (parts + 1) * now < parts * overflow_units =
      room_now p q (parts ^ l) ((parts + 1) ^ l) now more (size + total_size (y ∷ xs)) pq
        (pow-le-pow_left (omega arith) l) scaled (omega arith)
        (rw (pow-suc parts l, pow-suc (parts + 1) l) at room) in
    let (fr, small) = add-IsSmall now fits x y fx fy (omega arith) in
    let a = mul-le-mul_left p small in
    foldl_small (p * parts) (q * (parts + 1)) more (add x y) xs (omega (arith, pq)) fr
      (omega (arith, a, scaled)) fs
      (rw (one_more_power q (parts + 1) l, one_more_power p parts l, all) at room)

-- A `Sum` reduction of `f32` buffers that succeeds stores a finite element, where the cards' elements at
-- that index are finite and the sum of their magnitudes, enlarged by one part in 2^24 for each of the
-- additions, is below 2^128.
pub all_reduce_f32_sum-IsFinite :
    (t : Topology MockSail) (per_card buffers : List (List F32)) (i j : ℕ) (w : List F32) (x : F32)
    (xs : List F32) (r : F32)
    → all_reduce_f32 t per_card sum ≡ some (ok tt, buffers)
    → column j per_card ≡ some (x ∷ xs)
    → All IsFinite (x ∷ xs)
    → (parts + 1) ^ length xs * total_size (x ∷ xs) < parts ^ length xs * overflow_units
    → get_elem? buffers i ≡ some w
    → get_elem? w j ≡ some r
    → IsFinite r
unfolding reduce_column reduce_elements
all_reduce_f32_sum-IsFinite t per_card buffers i j w x xs r result col (fx, fs) room ew er =
    let reduced = all_reduce_f32-reduce_column t sum per_card buffers i j w r result ew er in
    let same : some (foldl add x xs) ≡ some r = rw col at reduced in
    rw (← some-injective _ r same) (
      foldl_small 1 1 (magnitude_of x) x xs (omega arith) fx (omega arith) fs (omega (arith, room)))
