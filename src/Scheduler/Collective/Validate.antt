-- ===== src/Scheduler/Collective/Validate.antt =====
-- src/scheduler/src/collective.rs, `validate_uniform`.
use spanker.Common.{
  ℕ, zero, suc, ◌+◌, ◌≡◌, ◌≢◌, refl, ap, ◌∙◌, ◌⊎◌, inl, inr, some, List, [], ◌∷◌, length, get_elem?,
  take, All, Bool-cases, ◌==◌, ok, err, arith,
}
use spanker.Scheduler.Failure.{topology_mismatch, shape_mismatch}
use spanker.Scheduler.Collective.{first_length, check_strides, validate_uniform}

module _ {ℓ} {T : Type ℓ} where
  abbrev pub HaveLength : ℕ → List (List T) → Type 0
  HaveLength stride per_card = All (λ v. length v ≡ stride) per_card

  pub length_of_HaveLength :
      (stride : ℕ) (per_card : List (List T)) (j : ℕ) {v : List T}
      → HaveLength stride per_card
      → get_elem? per_card j ≡ some v
      → length v ≡ stride
  length_of_HaveLength stride [] j h e = cc
  length_of_HaveLength stride (w ∷ rest) zero h e = ground arith
  length_of_HaveLength stride (w ∷ rest) (suc j) h e = length_of_HaveLength stride rest j h.1 e

  -- The first card whose buffer has another length than `stride` is the one at index `j`.
  pub record IsFirstOdd (stride : ℕ) (per_card : List (List T)) (j : ℕ) (v : List T) : Type ℓ where
    pub found : get_elem? per_card j ≡ some v
    pub odd : length v ≢ stride
    pub even_before : HaveLength stride (take j per_card)

  check_strides-cases :
      (stride i : ℕ) (per_card : List (List T))
      → (HaveLength stride per_card × (check_strides stride i per_card ≡ ok stride))
        ⊎ ((j : ℕ) × (v : List T) × IsFirstOdd stride per_card j v
            × (check_strides stride i per_card ≡ err (shape_mismatch (i + j) stride (length v))))
  unfolding check_strides
  check_strides-cases stride i [] = inl (tt, refl)
  check_strides-cases stride i (v ∷ rest) = elim (Bool-cases (length v == stride)) [
    | inr odd ↦
        inr (0, v, record { found = refl; odd = ground arith; even_before = tt }, ground arith)
    | inl even ↦ elim (check_strides-cases stride (i + 1) rest) [
      | inl (all, result) ↦ inl ((ground arith, all), ground (arith, result))
      | inr (j, w, first, result) ↦ inr (
        suc j,
        w,
        record {
          found = first.found;
          odd = first.odd;
          even_before = (ground arith, first.even_before);
        },
        rw even (result ∙ ap (λ k. err (shape_mismatch k stride (length w))) (omega arith)),
      )
    ]
  ]

  -- The three results of validation, each with its condition.
  abbrev pub ValidateOutcome : List (List T) → ℕ → Type ℓ
  ValidateOutcome per_card n =
      ((length per_card ≢ n)
        × (validate_uniform per_card n ≡ err (topology_mismatch n (length per_card))))
      ⊎ ((length per_card ≡ n)
          × HaveLength (first_length per_card) per_card
          × (validate_uniform per_card n ≡ ok (first_length per_card)))
      ⊎ ((j : ℕ) × (v : List T) × (length per_card ≡ n)
          × IsFirstOdd (first_length per_card) per_card j v
          × (validate_uniform per_card n
              ≡ err (shape_mismatch j (first_length per_card) (length v))))

  -- Validation has three results, each exactly under its condition: a number of buffers other than
  -- the number of sails; all buffers of the first one's length, which is returned; or the first
  -- buffer of another length, named by its sail.
  pub validate_uniform-cases : (per_card : List (List T)) (n : ℕ) → ValidateOutcome per_card n
  validate_uniform-cases per_card n = elim (Bool-cases (length per_card == n)) [
    | inr other ↦ inl (ground arith, unfold validate_uniform in rw other)
    | inl same ↦ elim (check_strides-cases (first_length per_card) 0 per_card) [
      | inl (all, result) ↦ inr (inl (ground arith, all, unfold validate_uniform in rw same result))
      | inr (j, v, first, result) ↦ inr (
          inr (
            j,
            v,
            ground arith,
            first,
            unfold validate_uniform in
                rw same (
                  result
                  ∙ ap (λ k. err (shape_mismatch k (first_length per_card) (length v)))
                      (omega arith)),
          ))
    ]
  ]
