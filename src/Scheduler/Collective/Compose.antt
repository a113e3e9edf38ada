-- ===== src/Scheduler/Collective/Compose.antt =====
-- src/scheduler/src/collective.rs: collective operations one after the other on the mock.
use spanker.Common.{
  ℕ, zero, suc, ◌≡◌, refl, ap, ap₂, ◌∙◌, ◌⊎◌, inl, inr, some, List, [], ◌∷◌, length,
  length-replicate, replicate, ◌==◌, Bool-cases, ok, arith,
}
use spanker.Scheduler.Topology.{Topology, MockSail, n_sails}
use spanker.Scheduler.Collective.{
  ReduceOp, max, min, Float32, combinator, finish, combine_into, fold_cards, reduce_cards,
  validate_uniform, all_reduce_f32, all_gather_f32, first_length,
}
use spanker.Scheduler.Collective.Validate.{HaveLength, length_of_HaveLength, validate_uniform-cases}
use spanker.Scheduler.Collective.AllReduce.{
  all_reduce_f32-stored, all_reduce_f32-skips, all_reduce_f32-stores,
}
use spanker.Scheduler.Collective.Gather.{
  split_cards, split_cards-all_gather_f32, all_gather_f32_iff,
}

module _ {ℓ} {T : Type ℓ} where
  replicate-HaveLength : (n : ℕ) (v : List T) → HaveLength (length v) (replicate n v)
  replicate-HaveLength zero v = tt
  replicate-HaveLength (suc n) v = (refl, replicate-HaveLength n v)

  uniform-HaveLength :
      (n : ℕ) (v : List T) → HaveLength (first_length (replicate n v)) (replicate n v)
  uniform-HaveLength zero v = tt
  uniform-HaveLength (suc n) v = replicate-HaveLength (suc n) v

  -- Folding copies of a buffer into it changes nothing, where combining an element with itself does
  -- not.
  combine_into_same :
      (c : T → T → T) → ((x : T) → c x x ≡ x) → (v : List T) → combine_into c v v ≡ v
  unfolding combine_into
  combine_into_same c same [] = refl
  combine_into_same c same (x ∷ v) = ap₂ (λ y r. y ∷ r) (same x) (combine_into_same c same v)

  fold_cards_same :
      (c : T → T → T)
      → ((x : T) → c x x ≡ x)
      → (n : ℕ) (v : List T) → fold_cards c v (replicate n v) ≡ v
  unfolding fold_cards
  fold_cards_same c same zero v = refl
  fold_cards_same c same (suc n) v =
      ap (λ r. fold_cards c r (replicate n v)) (combine_into_same c same v)
      ∙ fold_cards_same c same n v

module _ {ℓ} {F : Type ℓ} ⦃f : Float32 F⦄ (t : Topology MockSail) where
  -- After a reduction that succeeds, the cards' buffers can be gathered, and cutting what was
  -- gathered gives every card's reduced buffer back.
  pub all_gather_f32-all_reduce_f32 :
      (per_card buffers : List (List F)) (op : ReduceOp)
      → all_reduce_f32 t per_card op ≡ some (ok tt, buffers)
      → (out : List F) × (all_gather_f32 t buffers ≡ ok out)
        × (split_cards (n_sails t) (first_length buffers) out ≡ buffers)
  all_gather_f32-all_reduce_f32 per_card buffers op e =
      let (reduced, stored, reduction) = all_reduce_f32-stored t per_card buffers op e in
      let n = n_sails t in
      let (out, gathered) =
        (all_gather_f32_iff t buffers).1
          (rw stored (length-replicate n reduced, uniform-HaveLength n reduced)) in
      (out, gathered, (split_cards-all_gather_f32 t buffers out gathered).1)

  -- A greatest or a least value of copies of one element is that element.
  combinator_same : (op : ReduceOp) → (op ≡ max) ⊎ (op ≡ min) → (x : F) → combinator op x x ≡ x
  unfolding combinator
  combinator_same op (inl e) x = elim (Bool-cases (f.gt x x)) [
    | inl greater ↦ rw (e, combinator, greater)
    | inr other ↦ rw (e, combinator, other)
  ]
  combinator_same op (inr e) x = elim (Bool-cases (f.lt x x)) [
    | inl less ↦ rw (e, combinator, less)
    | inr other ↦ rw (e, combinator, other)
  ]

  finish_same : (op : ReduceOp) (n : ℕ) (v : List F) → (op ≡ max) ⊎ (op ≡ min) → finish op n v ≡ v
  unfolding finish
  finish_same op n v (inl e) = rw (e, finish)
  finish_same op n v (inr e) = rw (e, finish)

  reduce_cards_same :
      (op : ReduceOp) (n : ℕ) (v : List F)
      → (op ≡ max) ⊎ (op ≡ min)
      → reduce_cards op (replicate (suc n) v) ≡ some v
  unfolding reduce_cards
  reduce_cards_same op n v extreme = ap some (
      finish_same op (suc (length (replicate n v))) (fold_cards (combinator op) v (replicate n v))
        extreme
      ∙ fold_cards_same (combinator op) (combinator_same op extreme) n v)

  validate_uniform_same :
      (n : ℕ) (v : List F) → validate_uniform (replicate n v) n ≡ ok (first_length (replicate n v))
  validate_uniform_same n v = elim (validate_uniform-cases (replicate n v) n) [
    | inl (other, e) ↦ absurd (other (length-replicate n v))
    | inr (inl (same, all, e)) ↦ e
    | inr (inr (j, w, same, first, e)) ↦ absurd (
        first.odd (
          length_of_HaveLength (first_length (replicate n v)) (replicate n v) j
            (uniform-HaveLength n v) first.found))
  ]

  reduce_copies :
      (op : ReduceOp) (n : ℕ) (v : List F)
      → (op ≡ max) ⊎ (op ≡ min)
      → n_sails t ≡ n
      → all_reduce_f32 t (replicate n v) op ≡ some (ok tt, replicate n v)
  reduce_copies op zero v extreme e =
      all_reduce_f32-skips t [] op (rw e (validate_uniform_same 0 v))
  reduce_copies op (suc n) v extreme e = elim (Bool-cases (length v == 0)) [
    | inl empty ↦
        let valid : validate_uniform (replicate (suc n) v) (n_sails t) ≡ ok (length v) =
          rw e (validate_uniform_same (suc n) v) in
        let none_there : length v ≡ 0 = ground arith in
        all_reduce_f32-skips t (replicate (suc n) v) op (valid ∙ ap ok none_there)
    | inr filled ↦
        all_reduce_f32-stores t (replicate (suc n) v) op (length v) v (ground arith)
          (rw e (validate_uniform_same (suc n) v)) (reduce_cards_same op n v extreme)
        ∙ ap (λ k. some (ok tt, replicate {A = List F} k v)) (length-replicate (suc n) v)
  ]

  -- After a `Max` or a `Min` reduction that succeeds, the same reduction of the cards' buffers
  -- succeeds again and changes none of them, whatever the comparison of the elements answers.
  pub all_reduce_f32-again :
      (per_card buffers : List (List F)) (op : ReduceOp)
      → (op ≡ max) ⊎ (op ≡ min)
      → all_reduce_f32 t per_card op ≡ some (ok tt, buffers)
      → all_reduce_f32 t buffers op ≡ some (ok tt, buffers)
  all_reduce_f32-again per_card buffers op extreme e =
      let (reduced, stored, reduction) = all_reduce_f32-stored t per_card buffers op e in
      rw stored (reduce_copies op (n_sails t) reduced extreme refl)
