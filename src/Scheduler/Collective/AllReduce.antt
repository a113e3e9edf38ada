-- ===== src/Scheduler/Collective/AllReduce.antt =====
-- src/scheduler/src/collective.rs, `all_reduce_f32` on the mock: every result of a call.
use spanker.Common.{
  ℕ, ◌≡◌, ◌≢◌, refl, ap, ap₂, ◌∙◌, ◌⊎◌, inl, inr, some, List, [], ◌∷◌, length, replicate, get_elem?,
  ◌==◌, Bool-cases, eq_false, ok, err, arith,
}
use spanker.Scheduler.Failure.{Error, topology_mismatch, shape_mismatch}
use spanker.Scheduler.Topology.{Topology, MockSail, n_sails}
use spanker.Scheduler.Collective.{
  ReduceOp, Float32, combinator, finish, fold_cards, reduce_cards, store_all, validate_uniform,
  all_reduce_f32, first_length,
}
use spanker.Scheduler.Collective.Validate.{HaveLength, IsFirstOdd, validate_uniform-cases}
use spanker.Scheduler.Collective.Reduce.{
  column, reduce_column, get_elem?-reduced, length-finish, length-fold_cards,
}

module _ {ℓ} {F : Type ℓ} ⦃f : Float32 F⦄ where
  store_all-eq-replicate :
      (per_card : List (List F)) (reduced : List F)
      → store_all per_card reduced ≡ replicate (length per_card) reduced
  store_all-eq-replicate [] reduced = refl
  store_all-eq-replicate (v ∷ rest) reduced =
      ap (λ r. reduced ∷ r) (store_all-eq-replicate rest reduced)

  empty_of_length : (v : List F) → length v ≡ 0 → v ≡ []
  empty_of_length [] h = refl
  empty_of_length (x ∷ v) h = absurd (omega arith)

  replicate_of_HaveLength :
      (per_card : List (List F)) → HaveLength 0 per_card → per_card ≡ replicate (length per_card) []
  replicate_of_HaveLength [] h = refl
  replicate_of_HaveLength (v ∷ rest) h =
      ap₂ (λ w r. w ∷ r) (empty_of_length v h.0) (replicate_of_HaveLength rest h.1)

  -- `reduced` is the reduction of the buffers, column by column.
  pub record IsReduction (op : ReduceOp) (per_card : List (List F)) (reduced : List F)
      : Type ℓ where
    pub size : length reduced ≡ first_length per_card
    pub at_index : (j : ℕ) → get_elem? reduced j ≡ reduce_column op (column j per_card)

  -- With elements, the buffers of one length are reduced and the result is stored for each card.
  reduce_cards-IsReduction :
      (op : ReduceOp) (v : List F) (rest : List (List F))
      → HaveLength (length v) (v ∷ rest)
      → (reduced : List F) × (reduce_cards op (v ∷ rest) ≡ some reduced)
        × IsReduction op (v ∷ rest) reduced
  unfolding reduce_cards
  reduce_cards-IsReduction op v rest h =
      let folded = fold_cards (combinator op) v rest in
      let size = length (v ∷ rest) in
      (
        finish op size folded,
        refl,
        record {
          size = length-finish op size folded ∙ length-fold_cards (combinator op) v rest;
          at_index = λ j. get_elem?-reduced op v rest (length v) j h;
        },
      )

  -- Without elements there is nothing to reduce.
  empty-IsReduction :
      (op : ReduceOp) (per_card : List (List F))
      → HaveLength 0 per_card
      → first_length per_card ≡ 0
      → IsReduction op per_card []
  unfolding column reduce_column
  empty-IsReduction op [] h e = record { size = refl; at_index = λ j. refl }
  empty-IsReduction op ([] ∷ rest) h e = record { size = refl; at_index = λ j. refl }
  empty-IsReduction op ((x ∷ v) ∷ rest) h e = absurd (omega arith)

  module _ (t : Topology MockSail) (per_card : List (List F)) (op : ReduceOp) where
    pub all_reduce_f32-skips :
        validate_uniform per_card (n_sails t) ≡ ok 0
        → all_reduce_f32 t per_card op ≡ some (ok tt, per_card)
    unfolding all_reduce_f32
    all_reduce_f32-skips e = rw (e, all_reduce_f32)

    pub all_reduce_f32-stores :
        (stride : ℕ) (reduced : List F)
        → stride ≢ 0
        → validate_uniform per_card (n_sails t) ≡ ok stride
        → reduce_cards op per_card ≡ some reduced
        → all_reduce_f32 t per_card op ≡ some (ok tt, replicate (length per_card) reduced)
    unfolding all_reduce_f32
    all_reduce_f32-stores stride reduced ne e r =
        rw (e, all_reduce_f32, eq_false stride 0 ne, r)
          (ap (λ x. some (ok tt, x)) (store_all-eq-replicate per_card reduced))

    all_reduce_f32-fails :
        (e : Error)
        → validate_uniform per_card (n_sails t) ≡ err e
        → all_reduce_f32 t per_card op ≡ some (err e, per_card)
    unfolding all_reduce_f32
    all_reduce_f32-fails e h = rw (h, all_reduce_f32)

  reduce_nonempty :
      (op : ReduceOp) (per_card : List (List F))
      → first_length per_card ≢ 0
      → HaveLength (first_length per_card) per_card
      → (reduced : List F) × (reduce_cards op per_card ≡ some reduced)
        × IsReduction op per_card reduced
  reduce_nonempty op [] ne h = absurd (ne refl)
  reduce_nonempty op (v ∷ rest) ne h = reduce_cards-IsReduction op v rest h

  all_reduce_uniform :
      (t : Topology MockSail) (per_card : List (List F)) (op : ReduceOp)
      → length per_card ≡ n_sails t
      → HaveLength (first_length per_card) per_card
      → validate_uniform per_card (n_sails t) ≡ ok (first_length per_card)
      → (reduced : List F) × (all_reduce_f32 t per_card op
          ≡ some (ok tt, replicate (n_sails t) reduced))
        × IsReduction op per_card reduced
  all_reduce_uniform t per_card op same h e = elim (Bool-cases (first_length per_card == 0)) [
    | inl empty ↦
        let z : first_length per_card ≡ 0 = ground arith in
        (
          [],
          all_reduce_f32-skips t per_card op (e ∙ ap ok z)
              ∙ ap (λ x. some (ok tt, x))
                  (replicate_of_HaveLength per_card (rw z at h)
                    ∙ ap (λ n. replicate {A = List F} n []) same),
          empty-IsReduction op per_card (rw z at h) z,
        )
    | inr filled ↦
        let ne : first_length per_card ≢ 0 = ground arith in
        let (reduced, result, reduction) = reduce_nonempty op per_card ne h in
        (
          reduced,
          all_reduce_f32-stores t per_card op (first_length per_card) reduced ne e result
              ∙ ap (λ n. some (ok tt, replicate {A = List F} n reduced)) same,
          reduction,
        )
  ]

  -- The three results of a call, each with its condition.
  abbrev pub AllReduceOutcome : Topology MockSail → List (List F) → ReduceOp → Type ℓ
  AllReduceOutcome t per_card op =
      ((length per_card ≢ n_sails t)
        × (all_reduce_f32 t per_card op
            ≡ some (err (topology_mismatch (n_sails t) (length per_card)), per_card)))
      ⊎ ((length per_card ≡ n_sails t)
          × HaveLength (first_length per_card) per_card
          × (reduced : List F) × (all_reduce_f32 t per_card op
              ≡ some (ok tt, replicate (n_sails t) reduced))
          × IsReduction op per_card reduced)
      ⊎ ((j : ℕ) × (v : List F) × (length per_card ≡ n_sails t)
          × IsFirstOdd (first_length per_card) per_card j v
          × (all_reduce_f32 t per_card op
              ≡ some (err (shape_mismatch j (first_length per_card) (length v)), per_card)))

  -- A call never panics, and has one of three results, each exactly under its condition. Another
  -- number of buffers than sails, or a buffer of another length than the first one, is refused with
  -- its error and leaves all buffers as they were. Otherwise the call succeeds, and every card's
  -- buffer is the reduction of the buffers: at each index the fold of the cards' elements from card
  -- 0 on, for an average divided by their number.
  pub all_reduce_f32-cases :
      (t : Topology MockSail) (per_card : List (List F)) (op : ReduceOp)
      → AllReduceOutcome t per_card op
  all_reduce_f32-cases t per_card op = elim (validate_uniform-cases per_card (n_sails t)) [
    | inl (other, e) ↦ inl (other, all_reduce_f32-fails t per_card op _ e)
    | inr (inl (same, all, e)) ↦
        let (reduced, result, reduction) = all_reduce_uniform t per_card op same all e in
        inr (inl (same, all, reduced, result, reduction))
    | inr (inr (j, v, same, first, e)) ↦
        inr (inr (j, v, same, first, all_reduce_f32-fails t per_card op _ e))
  ]

  -- What a call that succeeds has stored.
  pub all_reduce_f32-stored :
      (t : Topology MockSail) (per_card buffers : List (List F)) (op : ReduceOp)
      → all_reduce_f32 t per_card op ≡ some (ok tt, buffers)
      → (reduced : List F) × (buffers ≡ replicate (n_sails t) reduced)
        × IsReduction op per_card reduced
  all_reduce_f32-stored t per_card buffers op result = elim (all_reduce_f32-cases t per_card op) [
    | inl (other, e) ↦ absurd cc
    | inr (inl (same, all, reduced, e, reduction)) ↦ (reduced, cc, reduction)
    | inr (inr (k, v, same, odd, e)) ↦ absurd cc
  ]
