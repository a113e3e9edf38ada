-- ===== src/Float32/Signed.antt =====
-- Sums of multiples of one power of two, negative ones among them: exact while the numbers have at most
-- 24 bits.
use native.Mathlib.Nat.{mul-lt-mul_of_pos_right, mul-le-mul_right, one-le-pow}
use spanker.Common.{
  ℕ, suc, ◌+◌, ◌-◌, ◌*◌, ◌^◌, ◌≤◌, ◌<◌, ◌≡◌, refl, sym, ap, ◌∙◌, inl, inr, Bool, true, false, not,
  ltb, ltb→lt, ltb→ge, lt→ltb, Bool-cases, if◌then◌else◌, ℤ, pos, negsuc, minus, ◌+ℤ◌, magnitude,
  arith,
}
use spanker.Float32.{F32, finite, subtract, add}
use spanker.Float32.Exact.{rounded_exact}

-- The value of `z` steps of size 2^e units. Zero is positive.
abbrev pub signed : ℕ → ℤ → F32
signed e (pos n) = finite false (n * 2 ^ e)
signed e (negsuc n) = finite true (suc n * 2 ^ e)

-- Comparing multiples of a step compares the numbers of steps.
ltb_steps : (e m n : ℕ) → ltb (m * 2 ^ e) (n * 2 ^ e) ≡ ltb m n
ltb_steps e m n =
    let step : 0 < 2 ^ e = one-le-pow e 2 (omega arith) in
    elim (Bool-cases (ltb m n)) [
      | inl less ↦
          lt→ltb (m * 2 ^ e) (n * 2 ^ e) (mul-lt-mul_of_pos_right (ltb→lt m n less) step) ∙ sym less
      | inr other ↦
          let more = mul-le-mul_right (2 ^ e) (ltb→ge m n other) in
          let not_less : ltb (m * 2 ^ e) (n * 2 ^ e) ≡ false = ground (arith, more) in
          not_less ∙ sym other
    ]

difference_steps : (e m n : ℕ) → n < m → m * 2 ^ e - n * 2 ^ e ≡ (m - n) * 2 ^ e * 1
difference_steps e m n h =
    let whole : m ≡ m - n + n = omega (arith, h) in omega (arith, ap (λ (t : ℕ). t * 2 ^ e) whole)

-- A difference of such values of different signs.
subtract_exact :
    (s : Bool) (e m n : ℕ)
    → e ≤ 252
    → m ≤ 2 ^ 24
    → n ≤ 2 ^ 24
    → subtract s (m * 2 ^ e) (n * 2 ^ e) ≡ (
        if ltb n m
        then finite s ((m - n) * 2 ^ e)
        else if ltb m n
        then finite (not s) ((n - m) * 2 ^ e)
        else finite false 0)
unfolding subtract
subtract_exact s e m n he hm hn = elim (Bool-cases (ltb n m)) [
  | inl less ↦
      rw (ltb_steps e n m, less)
        (rounded_exact s (m - n) e (m * 2 ^ e - n * 2 ^ e) 1 (omega arith) he (omega arith)
          (difference_steps e m n (ltb→lt n m less)))
  | inr other ↦ elim (Bool-cases (ltb m n)) [
    | inl more ↦
        rw (ltb_steps e n m, ltb_steps e m n, other, more)
          (rounded_exact (not s) (n - m) e (n * 2 ^ e - m * 2 ^ e) 1 (omega arith) he (omega arith)
            (difference_steps e n m (ltb→lt m n more)))
    | inr same ↦ rw (ltb_steps e n m, ltb_steps e m n, other, same) refl
  ]
]

signed_above : (e m n : ℕ) → n < m → signed e (minus m n) ≡ finite false ((m - n) * 2 ^ e)
signed_above e m n h = let not_less : ltb m n ≡ false = ground arith in rw not_less refl

one_less :
    (e m n : ℕ) → m < n → finite true ((n - m) * 2 ^ e) ≡ finite true (suc (n - suc m) * 2 ^ e)
one_less e m n h =
    let steps : n - m ≡ suc (n - suc m) = omega (arith, h) in
    ap (λ (t : ℕ). finite true (t * 2 ^ e)) steps

no_steps : (e k : ℕ) → k ≡ 0 → finite false 0 ≡ finite false (k * 2 ^ e)
no_steps e k h =
    let none : 0 ≡ k * 2 ^ e = omega (arith, ap (λ (t : ℕ). t * 2 ^ e) h) in
    ap (λ (t : ℕ). finite false t) none

-- The difference of two magnitudes, with the sign of the larger one, is the difference as an integer.
positive_first :
    (e m n : ℕ)
    → (if ltb n m
        then finite false ((m - n) * 2 ^ e)
        else if ltb m n
        then finite true ((n - m) * 2 ^ e)
        else finite false 0)
      ≡ signed e (minus m n)
positive_first e m n = elim (Bool-cases (ltb n m)) [
  | inl less ↦ rw less (sym (signed_above e m n (ltb→lt n m less)))
  | inr other ↦ elim (Bool-cases (ltb m n)) [
    | inl more ↦ rw (other, more) (one_less e m n (ltb→lt m n more))
    | inr same ↦
        let none : m - n ≡ 0 = omega (arith, ltb→ge n m other) in
        rw (other, same) (no_steps e (m - n) none)
  ]
]

negative_first :
    (e m n : ℕ)
    → (if ltb n m
        then finite true ((m - n) * 2 ^ e)
        else if ltb m n
        then finite false ((n - m) * 2 ^ e)
        else finite false 0)
      ≡ signed e (minus n m)
negative_first e m n = elim (Bool-cases (ltb n m)) [
  | inl less ↦ rw less (one_less e n m (ltb→lt n m less))
  | inr other ↦ elim (Bool-cases (ltb m n)) [
    | inl more ↦ rw (other, more) refl
    | inr same ↦
        let none : n - m ≡ 0 = omega (arith, ltb→ge m n same) in
        rw (other, same) (no_steps e (n - m) none)
  ]
]

-- Adding such values is exact.
pub add_signed :
    (e : ℕ) (x y : ℤ)
    → e ≤ 252
    → magnitude x + magnitude y ≤ 2 ^ 24
    → add (signed e x) (signed e y) ≡ signed e (x +ℤ y)
unfolding add
add_signed e (pos m) (pos n) he h =
    rounded_exact false (m + n) e (m * 2 ^ e + n * 2 ^ e) 1 h he (omega arith) (omega arith)
add_signed e (negsuc m) (negsuc n) he h =
    rounded_exact true (suc (suc (m + n))) e (suc m * 2 ^ e + suc n * 2 ^ e) 1 (omega (arith, h)) he
      (omega arith) (omega arith)
add_signed e (pos m) (negsuc n) he h =
    subtract_exact false e m (suc n) he (omega (arith, h)) (omega (arith, h))
    ∙ positive_first e m (suc n)
add_signed e (negsuc m) (pos n) he h =
    subtract_exact true e (suc m) n he (omega (arith, h)) (omega (arith, h))
    ∙ negative_first e (suc m) n
