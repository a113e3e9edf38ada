-- ===== src/Scheduler/Collective/Refusal.antt =====
-- src/scheduler/src/collective.rs and lib.rs: what the text of a refused collective operation says.
use spanker.Common.{ℕ, ◌≡◌, ◌≢◌, ◌⊎◌, inl, inr, some, List, [], ◌∷◌, length, numbers, err}
use spanker.Runtime.Control.{ErrnoTexts}
use spanker.Scheduler.Failure.{Error, display, topology_mismatch, shape_mismatch}
use spanker.Scheduler.Failure.Messages.{numbers-topology_mismatch, numbers-shape_mismatch}
use spanker.Scheduler.Topology.{Topology, MockSail, n_sails}
use spanker.Scheduler.Collective.{ReduceOp, Float32, first_length, all_reduce_f32}
use spanker.Scheduler.Collective.Validate.{IsFirstOdd}
use spanker.Scheduler.Collective.AllReduce.{all_reduce_f32-cases}

module _ {ℓ} {F : Type ℓ} where
  -- The numbers in the text are the numbers of sails and of buffers, which differ; or they are the
  -- first sail whose buffer has another length than that of sail 0, and the two lengths.
  abbrev pub SaysWhy : ℕ → List (List F) → List ℕ → Type ℓ
  SaysWhy n per_card said =
      ((length per_card ≢ n) × (said ≡ n ∷ length per_card ∷ []))
      ⊎ ((j : ℕ) × (v : List F) × IsFirstOdd (first_length per_card) per_card j v
          × (said ≡ j ∷ first_length per_card ∷ length v ∷ []))

module _ {ℓ} {F : Type ℓ} ⦃f : Float32 F⦄ (texts : ErrnoTexts) (t : Topology MockSail) where
  -- The text of an error of a mock `all_reduce_f32` says why: the numbers in it are the numbers of
  -- sails and of buffers, which differ, or the first sail whose buffer has another length than that
  -- of sail 0, with the two lengths. The buffers are as they were.
  pub all_reduce_f32-SaysWhy :
      (per_card buffers : List (List F)) (op : ReduceOp) (e : Error)
      → all_reduce_f32 t per_card op ≡ some (err e, buffers)
      → SaysWhy (n_sails t) per_card (numbers (display texts e)) × (buffers ≡ per_card)
  all_reduce_f32-SaysWhy per_card buffers op e refused = elim (all_reduce_f32-cases t per_card op) [
    | inl (other, result) ↦
        let same : e ≡ topology_mismatch (n_sails t) (length per_card) = cc in
        (inl (other, rw same (numbers-topology_mismatch texts (n_sails t) (length per_card))), cc)
    | inr (inl (same, all, reduced, result, reduction)) ↦ absurd cc
    | inr (inr (j, v, size, first, result)) ↦
        let same : e ≡ shape_mismatch j (first_length per_card) (length v) = cc in
        (
          inr (
            j,
            v,
            first,
            rw same (numbers-shape_mismatch texts j (first_length per_card) (length v)),
          ),
          cc,
        )
  ]
