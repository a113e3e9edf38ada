-- ===== src/Scheduler/Collective/Unordered.antt =====
-- src/scheduler/src/collective.rs, `all_reduce_f32` with `Max` and `Min` where some elements are not
-- ordered, as a NaN is not.
use mathlib.Core.List.{foldl}
use mathlib.Core.Option.{some-injective}
use spanker.Common.{
  ℕ, ◌≡◌, refl, ◌∙◌, sym, ◌⊎◌, inl, inr, Bool, false, some, Option-cases, List, [], ◌∷◌, get_elem?,
  All, if◌then◌else◌, ok,
}
use spanker.Scheduler.Topology.{Topology, MockSail}
use spanker.Scheduler.Collective.{ReduceOp, sum, max, min, avg, Float32, all_reduce_f32}
use spanker.Scheduler.Collective.Reduce.{column, reduce_elements, reduce_column}
use spanker.Scheduler.Collective.Extremes.{
  IsOrder, IsExtreme, pick, pick-cases, foldl_found, all_reduce_f32-reduce_column,
}

-- A test that orders the values with `P`, and that fails on every other one, as `<` and `>` of `f32`
-- do with the values that are not NaN.
pub record IsFloatOrder {ℓ κ} {F : Type ℓ} (P : F → Type κ) (better : F → F → Bool)
    : Type (ℓ ⊔ κ) where
  pub ordered : IsOrder P better
  pub decide : (x : F) → P x ⊎ (¬ P x)
  pub unordered : (x y : F) → ¬ P x → (better x y ≡ false) × (better y x ≡ false)

module _ {ℓ κ} {F : Type ℓ} (P : F → Type κ) (better : F → F → Bool)
    (order : IsFloatOrder P better) where
  -- An unordered value is never replaced,
  foldl_unordered : (x : F) (xs : List F) → ¬ P x → foldl (pick P better order.ordered) x xs ≡ x
  foldl_unordered x [] np = refl
  foldl_unordered x (y ∷ xs) np = rw ((order.unordered x y np).1) (foldl_unordered x xs np)

  -- and never replaces an ordered one.
  pick_mixed-cases :
      (acc y : F)
      → P acc
      → P (pick P better order.ordered acc y)
        × (better acc (pick P better order.ordered acc y) ≡ false)
        × (better y (pick P better order.ordered acc y) ≡ false)
  pick_mixed-cases acc y pa = elim (order.decide y) [
    | inl py ↦ pick-cases P better order.ordered acc y pa py
    | inr np ↦
        let below = (order.unordered y acc np).0 in
        rw below (pa, order.ordered.irreflexive acc pa, below)
  ]

  through : (x y r : F) → P y → P r → better x y ≡ false → better y r ≡ false → better x r ≡ false
  through x y r py pr h k = elim (order.decide x) [
    | inl px ↦ order.ordered.transitive x y r px py pr h k
    | inr np ↦ (order.unordered x r np).0
  ]

  foldl_mixed :
      (x : F) (xs : List F)
      → P x
      → P (foldl (pick P better order.ordered) x xs)
        × All (λ y. better y (foldl (pick P better order.ordered) x xs) ≡ false) (x ∷ xs)
  foldl_mixed x [] px = (px, (order.ordered.irreflexive x px, tt))
  foldl_mixed x (y ∷ xs) px =
      let p = pick P better order.ordered x y in
      let r = foldl (pick P better order.ordered) p xs in
      let (pp, older, newer) = pick_mixed-cases x y px in
      let (pr, (best, rest)) = foldl_mixed p xs pp in
      (pr, (through x p r pp pr older best, (through y p r pp pr newer best, rest)))

module _ {ℓ} {F : Type ℓ} ⦃f : Float32 F⦄ where
  -- The comparison that decides between two elements.
  abbrev pub prefers : ReduceOp → F → F → Bool
  prefers max x y = f.gt x y
  prefers min x y = f.lt x y
  prefers _ x y = false

  pub reduce_elements-prefers :
      (op : ReduceOp) (x : F) (xs : List F)
      → (op ≡ max) ⊎ (op ≡ min)
      → reduce_elements op (x ∷ xs)
        ≡ some (foldl (λ acc y. if prefers op y acc then y else acc) x xs)
  unfolding reduce_elements
  reduce_elements-prefers max x xs extreme = refl
  reduce_elements-prefers min x xs extreme = refl
  reduce_elements-prefers sum x xs (inl e) = absurd cc
  reduce_elements-prefers sum x xs (inr e) = absurd cc
  reduce_elements-prefers avg x xs (inl e) = absurd cc
  reduce_elements-prefers avg x xs (inr e) = absurd cc

module _ {ℓ κ} {F : Type ℓ} ⦃f : Float32 F⦄ (P : F → Type κ) where
  -- The element of card 0 is unordered, and is what `r` is; or it is ordered, and `r` is an ordered
  -- element of some card, and no card's element is better.
  abbrev pub IsExtremeOrFirst : ReduceOp → List (List F) → ℕ → F → Type (ℓ ⊔ κ)
  IsExtremeOrFirst op per_card j r =
      (x : F) × (xs : List F) × (column j per_card ≡ some (x ∷ xs))
      × (((¬ P x) × (r ≡ x)) ⊎ (P x × P r × IsExtreme (prefers op) per_card j r))

  module _ (op : ReduceOp) (order : IsFloatOrder P (prefers op)) where
    elements-IsExtremeOrFirst :
        (per_card : List (List F)) (j : ℕ) (xs : List F) (r : F)
        → (op ≡ max) ⊎ (op ≡ min)
        → column j per_card ≡ some xs
        → reduce_elements op xs ≡ some r
        → IsExtremeOrFirst op per_card j r
    unfolding reduce_elements
    elements-IsExtremeOrFirst per_card j [] r extreme col e = absurd cc
    elements-IsExtremeOrFirst per_card j (x ∷ xs) r extreme col e =
        let best = foldl (pick P (prefers op) order.ordered) x xs in
        let same : best ≡ r =
          some-injective _ r (sym (reduce_elements-prefers op x xs extreme) ∙ e) in
        elim (order.decide x) [
          | inr np ↦ (x, xs, col, inl (np, sym same ∙ foldl_unordered P (prefers op) order x xs np))
          | inl px ↦
              let (pr, all) = foldl_mixed P (prefers op) order x xs px in
              let found = foldl_found P (prefers op) order.ordered x xs in
              (x, xs, col, inr (px, rw (← same) pr, rw (← same) (x ∷ xs, col, found, all)))
        ]

    -- After a `Max` or a `Min` reduction that succeeds, with a comparison that fails on the elements
    -- that are not ordered: where card 0's element at an index is unordered, it is the result there;
    -- otherwise the result is an ordered element of some card at that index, and no card's element
    -- there is better, those passed over that are not ordered among them.
    pub all_reduce_f32-IsExtremeOrFirst :
        (t : Topology MockSail) (per_card buffers : List (List F)) (i j : ℕ) (w : List F) (r : F)
        → (op ≡ max) ⊎ (op ≡ min)
        → all_reduce_f32 t per_card op ≡ some (ok tt, buffers)
        → get_elem? buffers i ≡ some w
        → get_elem? w j ≡ some r
        → IsExtremeOrFirst op per_card j r
    unfolding reduce_column
    all_reduce_f32-IsExtremeOrFirst t per_card buffers i j w r extreme result ew er =
        let e = all_reduce_f32-reduce_column t op per_card buffers i j w r result ew er in
        elim (Option-cases (column j per_card)) [
          | inl past ↦ let none_some = rw past at e in absurd cc
          | inr (xs, col) ↦ elements-IsExtremeOrFirst per_card j xs r extreme col (rw col at e)
        ]
