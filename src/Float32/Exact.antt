-- ===== src/Float32/Exact.antt =====
-- Where binary32 arithmetic is exact: on multiples of one power of two, with numbers of up to 24 bits.
use native.Mathlib.Nat.{
  lt_of_mul-lt-mul_right, one-le-mul, one-le-pow, pow-le-pow_right, mul-le-mul_right,
  mul-div_cancel, pow-suc,
}
use spanker.Common.{
  ℕ, Bool, ◌+◌, ◌*◌, ◌/◌, ◌^◌, ◌≤◌, ◌<◌, ◌≡◌, refl, ap, inl, inr, ltb, ltb→lt, ltb→ge, lt→ltb,
  Bool-cases, false, eq_false, arith,
}
use spanker.Float64.{halvings, nearest_even}
use spanker.Float64.Spacing.{halvings_lem}
use spanker.Float64.Nearest.{nearest_even_error}
use spanker.Float64.Powers.{pow_divides}
use spanker.Float32.{
  F32, finite, one_units, overflow_units, spacing, round_units, of_units, rounded, of_usize, add,
  div,
}

-- A multiple of the step is rounded to itself.
round_step :
    (v k s den : ℕ) → v ≡ k * s → 0 < s → 0 < den → nearest_even (v * den) (den * s) * s ≡ v
round_step v k s den multiple ps pd =
    let step = den * s in
    let pos : 0 < step = one-le-mul pd ps in
    let r = nearest_even (v * den) step in
    let (hi, lo) = nearest_even_error (v * den) step pos in
    let scaled : v * den ≡ k * step = omega (arith, ap (λ (t : ℕ). t * den) multiple) in
    let above : r < k + 1 = lt_of_mul-lt-mul_right step (omega (arith, pos, hi, scaled)) in
    let below : k < r + 1 = lt_of_mul-lt-mul_right step (omega (arith, pos, lo, scaled)) in
    let same : r ≡ k = omega (arith, above, below) in
    omega (arith, multiple, ap (λ (t : ℕ). t * s) same)

spacing_pos : (q : ℕ) → 0 < spacing q
unfolding spacing
spacing_pos q = one-le-pow (halvings (2 ^ 24) q q) 2 (omega arith)

-- A whole number of up to 24 bits times a power of two is a multiple of its spacing.
spacing_divides : (n e : ℕ) → n ≤ 2 ^ 24 → (k : ℕ) × (n * 2 ^ e ≡ k * spacing (n * 2 ^ e))
unfolding spacing
spacing_divides n e h =
    let q = n * 2 ^ e in
    let b = halvings (2 ^ 24) q q in
    elim ((halvings_lem (2 ^ 23) q q (omega arith) (omega arith)).1) [
      | inl none ↦ (q, omega (arith, ap (λ (t : ℕ). q * 2 ^ t) none))
      | inr many ↦ elim (Bool-cases (ltb e b)) [
        | inr less ↦
            let (c, d) = pow_divides b e (ltb→ge e b less) in
            (n * c, omega (arith, ap (λ (t : ℕ). n * t) d))
        | inl more ↦
            let up = pow-le-pow_right {n = 2} (omega arith) (ltb→lt e b more) in
            let twice = pow-suc 2 e in
            let whole : n * 2 ^ e ≤ 2 ^ 24 * 2 ^ e = mul-le-mul_right (2 ^ e) h in
            (2 ^ 23, omega (arith, many, up, twice, whole))
      ]
    ]

-- Such a number of units is rounded to itself.
round_units_exact :
    (n e den : ℕ) → n ≤ 2 ^ 24 → 0 < den → round_units (n * 2 ^ e * den) den ≡ n * 2 ^ e
unfolding round_units
round_units_exact n e den h p =
    let v = n * 2 ^ e in
    let (k, multiple) = spacing_divides n e h in
    let step : (q : ℕ) → q ≡ v → nearest_even (v * den) (den * spacing q) * spacing q ≡ v =
      λ q same. rw same (round_step v k (spacing v) den multiple (spacing_pos v) p) in
    step (v * den / den) (mul-div_cancel v p)

-- The value of `n` steps of size 2^e units; the whole numbers are those with `e` 149.
abbrev pub fixed : ℕ → ℕ → F32
fixed e n = finite false (n * 2 ^ e)

-- A fraction that is such a number of units, is the value of that number.
pub rounded_exact :
    (s : Bool) (n e num den : ℕ)
    → n ≤ 2 ^ 24
    → e ≤ 252
    → 0 < den
    → num ≡ n * 2 ^ e * den
    → rounded s num den ≡ finite s (n * 2 ^ e)
unfolding rounded of_units
rounded_exact s n e num den h he p same =
    let exact : round_units num den ≡ n * 2 ^ e = rw same (round_units_exact n e den h p) in
    let step = pow-le-pow_right {n = 2} (omega arith) he in
    let whole : n * 2 ^ e ≤ 2 ^ 24 * 2 ^ e = mul-le-mul_right (2 ^ e) h in
    rw (exact, lt→ltb (n * 2 ^ e) overflow_units (omega (arith, step, whole))) refl

-- Converting a whole number of up to 24 bits,
pub of_usize_exact : (n : ℕ) → n ≤ 2 ^ 24 → of_usize n ≡ fixed 149 n
unfolding of_usize
of_usize_exact n h =
    rounded_exact false n 149 (n * one_units) 1 h (omega arith) (omega arith) (omega arith)

-- adding numbers of the same step,
pub add_exact :
    (e m n : ℕ) → e ≤ 252 → m + n ≤ 2 ^ 24 → add (fixed e m) (fixed e n) ≡ fixed e (m + n)
unfolding add
add_exact e m n he h =
    rounded_exact false (m + n) e (m * 2 ^ e + n * 2 ^ e) 1 h he (omega arith) (omega arith)

-- and dividing a multiple by a whole number make no error.
pub div_exact :
    (e c d : ℕ) → e ≤ 252 → c ≤ 2 ^ 24 → 0 < d → div (fixed e (c * d)) (fixed 149 d) ≡ fixed e c
unfolding div
div_exact e c d he h p =
    let den = d * one_units in
    let pos : 0 < den = omega (arith, p) in
    let divided = eq_false den 0 (λ z. absurd (omega (arith, pos, z))) in
    rw divided (rounded_exact false c e (c * d * 2 ^ e * one_units) den h he pos (omega arith))
