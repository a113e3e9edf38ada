-- ===== src/Scheduler/Collective/Gather.antt =====
-- src/scheduler/src/collective.rs, `all_gather_f32`.
use spanker.Common.{
  ℕ, zero, suc, ◌*◌, ◌≡◌, ◌↔◌, refl, sym, ap, ◌∙◌, List, [], ◌∷◌, ◌++◌, append_assoc, append-nil,
  length, length-append, take, drop, take-append_length, drop-append_length, ok, inl, inr, arith,
}
use spanker.Scheduler.Topology.{Topology, MockSail, n_sails}
use spanker.Scheduler.Collective.{first_length, extend_all, all_gather_f32}
use spanker.Scheduler.Collective.Validate.{HaveLength, length_of_HaveLength, validate_uniform-cases}

module _ {ℓ} {T : Type ℓ} where
  -- Cuts a flat buffer into `cards` pieces of `stride` elements.
  unfoldable pub split_cards : ℕ → ℕ → List T → List (List T)
  split_cards zero stride xs = []
  split_cards (suc cards) stride xs = take stride xs ∷ split_cards cards stride (drop stride xs)

  -- The buffers one after the other.
  unfoldable pub concat : List (List T) → List T
  concat [] = []
  concat (v ∷ rest) = v ++ concat rest

  extend_all-eq-append :
      (out : List T) (per_card : List (List T)) → extend_all out per_card ≡ out ++ concat per_card
  unfolding extend_all concat
  extend_all-eq-append out [] = sym (append-nil out)
  extend_all-eq-append out (v ∷ rest) =
      extend_all-eq-append (out ++ v) rest ∙ append_assoc out v (concat rest)

  length-concat :
      (stride : ℕ) (per_card : List (List T))
      → HaveLength stride per_card
      → length (concat per_card) ≡ length per_card * stride
  unfolding concat
  length-concat stride [] h = omega arith
  length-concat stride (v ∷ rest) h =
      omega (arith, length-append v (concat rest), length-concat stride rest h.1)

  split_cards-concat :
      (stride : ℕ) (per_card : List (List T))
      → HaveLength stride per_card
      → split_cards (length per_card) stride (concat per_card) ≡ per_card
  unfolding split_cards concat
  split_cards-concat stride [] h = refl
  split_cards-concat stride (v ∷ rest) h =
      rw
        (
          take-append_length v (concat rest) stride h.0,
          drop-append_length v (concat rest) stride h.0,
        )
        (ap (λ r. v ∷ r) (split_cards-concat stride rest h.1))

  pub all_gather_f32-concat :
      (t : Topology MockSail) (per_card : List (List T)) (out : List T)
      → all_gather_f32 t per_card ≡ ok out
      → (length per_card ≡ n_sails t)
        × HaveLength (first_length per_card) per_card
        × (out ≡ concat per_card)
  unfolding all_gather_f32
  all_gather_f32-concat t per_card out e = elim (validate_uniform-cases per_card (n_sails t)) [
    | inl (other, result) ↦ absurd (cc (rw result at e))
    | inr (inl (same, all, result)) ↦
        (same, all, ground (arith, rw result at e, extend_all-eq-append [] per_card))
    | inr (inr (j, v, same, first, result)) ↦ absurd (cc (rw result at e))
  ]

  -- A gather that succeeds returns one buffer of the number of sails times the cards' common length,
  -- and cutting it into pieces of that length gives every card's buffer back, in topology order.
  pub split_cards-all_gather_f32 :
      (t : Topology MockSail) (per_card : List (List T)) (out : List T)
      → all_gather_f32 t per_card ≡ ok out
      → (length out ≡ n_sails t * first_length per_card)
        × (split_cards (n_sails t) (first_length per_card) out ≡ per_card)
  split_cards-all_gather_f32 t per_card out e =
      let (same, all, flat) = all_gather_f32-concat t per_card out e in
      rw (flat, ← same)
        (
          length-concat (first_length per_card) per_card all,
          split_cards-concat (first_length per_card) per_card all,
        )

  -- A gather succeeds exactly where there is one buffer for each sail and all have one length.
  pub all_gather_f32_iff :
      (t : Topology MockSail) (per_card : List (List T))
      → ((out : List T) × (all_gather_f32 t per_card ≡ ok out))
        ↔ ((length per_card ≡ n_sails t) × HaveLength (first_length per_card) per_card)
  unfolding all_gather_f32
  all_gather_f32_iff t per_card = elim (validate_uniform-cases per_card (n_sails t)) [
    | inl (other, result) ↦ (λ r. cc (rw result at r.1), λ h. absurd (other h.0))
    | inr (inl (same, all, result)) ↦ (λ r. (same, all), λ h. (extend_all [] per_card, rw result))
    | inr (inr (j, v, same, first, result)) ↦ (
      λ r. cc (rw result at r.1),
      λ h.
          absurd
            (first.odd (length_of_HaveLength (first_length per_card) per_card j h.1 first.found)),
    )
  ]
