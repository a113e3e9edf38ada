-- ===== src/Scheduler/Collective/AnyOrder.antt =====
-- src/scheduler/src/collective.rs, `all_reduce_f32` with `Max` and `Min` on cards in another order.
use mathlib.Core.List.{Permᴰ}
use mathlib.Core.Option.{some-injective}
use spanker.Common.{
  ℕ, ◌≡◌, refl, sym, ap, ◌∙◌, ◌⊎◌, inl, inr, Bool, false, some, Option-cases, List, length,
  get_elem?, replicate, All, ok,
}
use spanker.Scheduler.Topology.{Topology, MockSail, n_sails}
use spanker.Scheduler.Collective.{ReduceOp, max, min, Float32, first_length, all_reduce_f32}
use spanker.Scheduler.Collective.Validate.{HaveLength, length_of_HaveLength}
use spanker.Scheduler.Collective.Reduce.{column}
use spanker.Scheduler.Collective.AllReduce.{IsReduction, all_reduce_f32-cases}
use spanker.Scheduler.Collective.Extremes.{
  IsOrder, IsExtreme, get_elem?-All, column-All, column-IsExtreme,
}
use spanker.Scheduler.Collective.Unordered.{prefers, reduce_elements-prefers}
use spanker.Scheduler.Collective.Shuffle.{
  length-Perm, All-Perm, Contains-Perm, SameColumn, column-SameColumn, first_length-Perm, list_ext,
}

-- A test that orders the values with `P`, different ones strictly.
pub record IsStrictOrder {ℓ κ} {F : Type ℓ} (P : F → Type κ) (better : F → F → Bool)
    : Type (ℓ ⊔ κ) where
  pub ordered : IsOrder P better
  pub antisymmetric : (x y : F) → P x → P y → better x y ≡ false → better y x ≡ false → x ≡ y

module _ {ℓ κ} {F : Type ℓ} (P : F → Type κ) (better : F → F → Bool) where
  IsExtreme-Perm :
      (cards other : List (List F)) (j : ℕ) (r : F)
      → Permᴰ cards other
      → IsExtreme better cards j r
      → IsExtreme better other j r
  IsExtreme-Perm cards other j r p (xs, col, found, best) =
      let same : SameColumn (some xs) (column j other) = rw col at (column-SameColumn j p) in
      elim (Option-cases (column j other)) [
        | inl past ↦ let none_some = rw past at same in absurd cc
        | inr (ys, col_other) ↦
            let q : Permᴰ xs ys = rw col_other at same in
            (ys, col_other, Contains-Perm r q found, All-Perm (λ y. better y r ≡ false) q best)
      ]

  found-All {μ} :
      (Q : F → Type μ) (xs : List F) (r : F) → (i : ℕ) × (get_elem? xs i ≡ some r) → All Q xs → Q r
  found-All Q xs r (i, e) all = let on = get_elem?-All Q xs i all in rw e at on

  extremes_equal :
      (cards : List (List F)) (j : ℕ) (r s : F)
      → IsStrictOrder P better
      → All (All P) cards
      → IsExtreme better cards j r
      → IsExtreme better cards j s
      → r ≡ s
  extremes_equal cards j r s order ps (xs, col, found, best) (ys, col_s, found_s, best_s) =
      let same : ys ≡ xs = some-injective ys xs (sym col_s ∙ col) in
      let on = rw col at (column-All P j cards ps) in
      order.antisymmetric r s (found-All P xs r found on) (found-All P xs s (rw same at found_s) on)
        (found-All (λ y. better y s ≡ false) xs r found (rw same at best_s))
        (found-All (λ y. better y r ≡ false) xs s (rw same at found_s) best)

module _ {ℓ κ} {F : Type ℓ} ⦃f : Float32 F⦄ (P : F → Type κ) (op : ReduceOp)
    (order : IsStrictOrder P (prefers op)) (extreme : (op ≡ max) ⊎ (op ≡ min)) where
  same_reduction :
      (cards other : List (List F)) (a b : List F)
      → Permᴰ cards other
      → All (All P) cards
      → first_length cards ≡ first_length other
      → IsReduction op cards a
      → IsReduction op other b
      → b ≡ a
  same_reduction cards other a b p ps e ra rb =
      let extreme_at = λ (all : List (List F)).
        column-IsExtreme P op (prefers op) order.ordered
          (λ x xs. reduce_elements-prefers op x xs extreme) all in
      let ps_other = All-Perm (All P) p ps in
      list_ext b a (rb.size ∙ sym e ∙ sym ra.size) (λ j y x ey ex.
        extremes_equal P (prefers op) other j y x order ps_other
          (extreme_at other j y ps_other (sym (rb.at_index j) ∙ ey))
          (IsExtreme-Perm P (prefers op) cards other j x p
            (extreme_at cards j x ps (sym (ra.at_index j) ∙ ex))))

  -- A `Max` or a `Min` reduction that succeeds, of elements that the comparison orders strictly, stores
  -- the same buffers whatever the order of the cards.
  pub all_reduce_f32-Perm :
      (t : Topology MockSail) (cards other buffers : List (List F))
      → Permᴰ cards other
      → All (All P) cards
      → all_reduce_f32 t cards op ≡ some (ok tt, buffers)
      → all_reduce_f32 t other op ≡ some (ok tt, buffers)
  all_reduce_f32-Perm t cards other buffers p ps e = elim (all_reduce_f32-cases t cards op) [
    | inl (mismatch, result) ↦ absurd cc
    | inr (inr (j, v, same, odd, result)) ↦ absurd cc
    | inr (inl (same, all, reduced, result, reduction)) ↦
        let all_other : HaveLength (first_length cards) other =
          All-Perm (λ v. length v ≡ first_length cards) p all in
        let first = first_length-Perm (first_length cards) cards other p refl all_other in
        elim (all_reduce_f32-cases t other op) [
          | inl (mismatch, result_other) ↦ absurd (mismatch (sym (length-Perm p) ∙ same))
          | inr (inr (j, v, size, odd, result_other)) ↦ absurd (
              odd.odd
                (length_of_HaveLength (first_length cards) other j all_other odd.found ∙ sym first))
          | inr (inl (size, uniform, reduced_other, result_other, reduction_other)) ↦
              let equal =
                same_reduction cards other reduced reduced_other p ps (sym first) reduction
                  reduction_other in
              result_other
              ∙ ap (λ r. some (ok tt, replicate {A = List F} (n_sails t) r)) equal
              ∙ sym result
              ∙ e
        ]
  ]
