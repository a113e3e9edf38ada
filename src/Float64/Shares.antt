-- ===== src/Float64/Shares.antt =====
-- Dividing two values by the same count of at least two: the larger one loses at least as much, in
-- rounded quotients too.
use native.Mathlib.Nat.{mul-le-mul_right, lt_of_mul-lt-mul_right}
use spanker.Common.{
  ℕ, ◌+◌, ◌-◌, ◌*◌, ◌/◌, ◌^◌, ◌≤◌, ◌<◌, ◌≡◌, refl, ap, ◌∙◌, ◌⊎◌, inl, inr, ltb, ltb→lt, ltb→ge,
  Bool-cases, arith,
}
use spanker.Float64.{spacing, round_units}
use spanker.Float64.Spacing.{spacing_lem, spacing_order}
use spanker.Float64.Rounding.{round_units_mono}
use spanker.Float64.Accuracy.{round_units_error}
use spanker.Float64.Powers.{spacing_divides, spacing_below}
use spanker.Float64.ShareErrors.{small_errors, small_errors_three, share_spacing}
use spanker.Float64.Values.{IsValue, round_exact, multiple-IsValue}

module _ (w a : ℕ) (vw : IsValue w) (va : IsValue a) (less : a < w) (normal : 2 ^ 54 ≤ a) where
  -- The larger value has at least the spacing of the smaller one.
  spacing_mono : spacing a ≤ spacing w
  spacing_mono =
      let (pa, below_a, above_a) = spacing_lem a in
      let (pw, below_w, above_w) = spacing_lem w in
      elim (spacing_order a w) [
        | inl same ↦ omega (arith, same)
        | inr (inl up) ↦ omega (arith, up)
        | inr (inr down) ↦ elim above_a [
          | inl one ↦ absurd (omega (arith, one, down, pw))
          | inr many ↦ absurd (omega (arith, many, down, below_w, less))
        ]
      ]

  -- They differ by a whole number of spacings of the smaller one.
  gap : (j : ℕ) × (0 < j) × (w ≡ a + j * spacing a)
  gap =
      let s = spacing a in
      let pos = (spacing_lem a).0 in
      let (m, em) = spacing_divides a w spacing_mono in
      let (kw, ew) = vw in
      let (ka, ea) = va in
      let whole : w ≡ kw * m * s = ew ∙ ap (λ (t : ℕ). kw * t) em ∙ omega arith in
      let order : ka < kw * m = lt_of_mul-lt-mul_right s (omega (arith, ea, whole, less)) in
      let split : kw * m ≡ ka + (kw * m - ka) = omega (arith, order) in
      (kw * m - ka, omega (arith, order), omega (arith, whole, ea, ap (λ (t : ℕ). t * s) split))

  -- With spacings as far apart as this, the larger value lies on the boundary between them.
  boundary : spacing a * 2 ≡ spacing w → w ≡ a + spacing a → w ≡ 2 ^ 52 * spacing a * 2
  boundary twice e =
      let (pa, below_a, above_a) = spacing_lem a in
      let (kw, ew) = vw in
      let doubled : spacing w ≡ 2 * spacing a = omega (arith, twice) in
      let place : w ≡ kw * 2 * spacing a = omega (arith, ew, ap (λ (t : ℕ). kw * t) doubled) in
      let bits : 2 ^ 52 * spacing w ≤ w = elim (spacing_lem w).2 [
        | inl one ↦ absurd (omega (arith, one, twice, pa))
        | inr many ↦ many
      ] in
      let above : kw * 2 < 2 ^ 53 + 1 =
        lt_of_mul-lt-mul_right (spacing a) (omega (arith, place, e, below_a)) in
      let below : kw * 2 ≤ 2 ^ 53 = omega (arith, above) in
      let top = mul-le-mul_right (spacing a) below in omega (arith, place, top, bits, twice)

  half : IsValue (2 ^ 52 * spacing a)
  half =
      let (pa, below_a, above_a) = spacing_lem a in
      let v = 2 ^ 52 * spacing a in
      multiple-IsValue v a (2 ^ 52) refl (elim (spacing_lem v).2 [
        | inl one ↦ omega (arith, one, pa)
        | inr many ↦ omega (arith, many)
      ])

  module _ (n : ℕ) (p : 2 ≤ n) where
    share_below : spacing (a / n) * 2 ≤ spacing a
    share_below = elim (share_spacing a n p) [
      | inl one ↦ omega (arith, one, (spacing_lem a).1)
      | inr (small, fits) ↦ small
    ]

    -- Off the boundary the spacings of the shares are small against the difference.
    shares_far :
        (d : ℕ)
        → w ≡ a + d
        → spacing (w / n) + spacing (a / n) ≤ d
        → round_units w n + a ≤ w + round_units a n
    shares_far d e h =
        let (hi, lo) = round_units_error w n (omega arith) in
        let (above, below) = round_units_error a n (omega arith) in
        small_errors (round_units w n) (round_units a n) w a n d (spacing (w / n)) (spacing (a / n))
          p hi below e h

    -- On it, half of the larger value is a value, and a smaller share has still less spacing.
    shares_boundary :
        spacing a * 2 ≡ spacing w → w ≡ a + spacing a → round_units w n + a ≤ w + round_units a n
    shares_boundary twice e =
        let s = spacing a in
        let (pa, below_a, above_a) = spacing_lem a in
        let edge = boundary twice e in
        let (hi, lo) = round_units_error w n (omega arith) in
        let (above, below) = round_units_error a n (omega arith) in
        elim (Bool-cases (ltb n 3)) [
          | inl two ↦
              let n2 : n ≡ 2 = omega (arith, ltb→lt n 3 two) in
              let wide = ap (λ (t : ℕ). 2 ^ 52 * s * t) n2 in
              let top =
                round_units_mono w n (2 ^ 52 * s) 1 (omega arith) (omega arith)
                  (omega (arith, wide, edge)) in
              let share : round_units w n ≤ 2 ^ 52 * s = omega (arith, top, round_exact _ half) in
              omega (
                arith,
                share,
                edge,
                e,
                below,
                share_below,
                ap (λ (t : ℕ). round_units a n * t) n2,
                ap (λ (t : ℕ). t * spacing (a / n)) n2,
              )
          | inr more ↦
              small_errors_three (round_units w n) (round_units a n) w a n s (spacing (w / n))
                (spacing (a / n)) (ltb→ge n 3 more) hi below e
                (elim (share_spacing w n p) [
                  | inl one ↦ omega (arith, one, share_below, below_a)
                  | inr (small, fits) ↦
                      let thrice = mul-le-mul_right (spacing (w / n)) (ltb→ge n 3 more) in
                      omega (arith, fits, thrice, edge, share_below)
                ])
        ]

    -- Where the spacings are equal or far apart, or the difference is more than one spacing.
    shares_apart :
        (d : ℕ)
        → w ≡ a + d
        → ((spacing a ≡ spacing w) × (spacing a ≤ d))
          ⊎ ((spacing a * 2 ≡ spacing w) × (spacing a * 2 ≤ d))
          ⊎ (spacing a * 4 ≤ spacing w)
        → spacing (w / n) + spacing (a / n) ≤ d
    shares_apart d e h =
        let (pa, below_a, above_a) = spacing_lem a in
        let share_w : spacing (w / n) * 2 ≤ spacing w = elim (share_spacing w n p) [
          | inl one ↦ omega (arith, one, spacing_mono, below_a)
          | inr (small, fits) ↦ small
        ] in
        elim h [
          | inl (same, far) ↦ omega (arith, same, far, share_w, share_below)
          | inr (inl (twice, far)) ↦ omega (arith, twice, far, share_w, share_below)
          | inr (inr four) ↦
              let bits : 2 ^ 52 * spacing w ≤ w = elim (spacing_lem w).2 [
                | inl one ↦ absurd (omega (arith, one, four, pa))
                | inr many ↦ many
              ] in
              omega (arith, four, bits, below_a, share_w, share_below)
        ]

    -- The quotient of the larger value exceeds that of the smaller one by at most their difference.
    pub shares_le : round_units w n + a ≤ w + round_units a n
    shares_le =
        let s = spacing a in
        let (j, pj, e) = gap in
        let once = mul-le-mul_right s pj in
        elim (spacing_order a w) [
          | inl same ↦
              shares_far (j * s) e (shares_apart (j * s) e (inl (same, omega (arith, once))))
          | inr (inr down) ↦ absurd (omega (arith, down, spacing_mono, (spacing_lem a).0))
          | inr (inl up) ↦ elim (spacing_below a w (omega (arith, up, (spacing_lem a).0))) [
            | inr four ↦ shares_far (j * s) e (shares_apart (j * s) e (inr (inr four)))
            | inl twice ↦ elim (Bool-cases (ltb j 2)) [
              | inl one ↦
                  let j1 : j ≡ 1 = omega (arith, ltb→lt j 2 one) in
                  shares_boundary twice (omega (arith, e, ap (λ (t : ℕ). t * s) j1))
              | inr more ↦
                  let double = mul-le-mul_right s (ltb→ge j 2 more) in
                  shares_far (j * s) e
                    (shares_apart (j * s) e (inr (inl (twice, omega (arith, double)))))
            ]
          ]
        ]
