-- ===== src/Scheduler/Collective/Extremes.antt =====
-- src/scheduler/src/collective.rs, `all_reduce_f32` with `Max` and `Min`: what the reduction keeps.
use mathlib.Core.List.{foldl}
use mathlib.Core.Option.{some-injective}
use spanker.Common.{
  ℕ, zero, suc, ◌≡◌, refl, ◌∙◌, sym, inl, inr, Bool, true, false, Bool-cases, Option, none, some,
  Option-cases, List, [], ◌∷◌, get_elem?, replicate, All, if◌then◌else◌, ok,
}
use spanker.Scheduler.Topology.{Topology, MockSail, n_sails}
use spanker.Scheduler.Collective.{ReduceOp, max, min, Float32, all_reduce_f32}
use spanker.Scheduler.Collective.Reduce.{column, cons_column, reduce_elements, reduce_column}
use spanker.Scheduler.Collective.AllReduce.{all_reduce_f32-stored}

-- A test that orders the values with `P`, equivalent ones allowed, as `<` and `>` order the values of
-- `f32` that are not NaN.
pub record IsOrder {ℓ κ} {F : Type ℓ} (P : F → Type κ) (better : F → F → Bool) : Type (ℓ ⊔ κ) where
  pub irreflexive : (x : F) → P x → better x x ≡ false
  pub asymmetric : (x y : F) → P x → P y → better x y ≡ true → better y x ≡ false
  pub transitive :
      (x y z : F) → P x → P y → P z → better x y ≡ false → better y z ≡ false → better x z ≡ false

module _ {ℓ κ} {F : Type ℓ} (P : F → Type κ) (better : F → F → Bool)
    (order : IsOrder P better) where
  abbrev pub pick : F → F → F
  pick acc y = if better y acc then y else acc

  -- What is kept is one of the two, and neither is better.
  pub pick-cases :
      (acc y : F)
      → P acc
      → P y
      → P (pick acc y) × (better acc (pick acc y) ≡ false) × (better y (pick acc y) ≡ false)
  pick-cases acc y pa py = elim (Bool-cases (better y acc)) [
    | inl newer ↦ rw newer (py, order.asymmetric y acc py pa newer, order.irreflexive y py)
    | inr older ↦ rw older (pa, order.irreflexive acc pa, older)
  ]

  -- Nothing is better than what a fold keeps.
  pub foldl_best :
      (x : F) (xs : List F)
      → P x
      → All P xs
      → P (foldl pick x xs) × All (λ y. better y (foldl pick x xs) ≡ false) (x ∷ xs)
  foldl_best x [] px ps = (px, (order.irreflexive x px, tt))
  foldl_best x (y ∷ xs) px (py, ps) =
      let (pp, older, newer) = pick-cases x y px py in
      let (pr, (best, rest)) = foldl_best (pick x y) xs pp ps in
      let through : (z : F)
          → P z
          → better z (pick x y) ≡ false
          → better z (foldl pick (pick x y) xs) ≡ false =
        λ z pz below.
          order.transitive z (pick x y) (foldl pick (pick x y) xs) pz pp pr below best in
      (pr, (through x px older, (through y py newer, rest)))

  -- A value of the list with the first two merged is one of the whole list.
  found_in_pair :
      (x y : F) (xs : List F) (i : ℕ) {r : F}
      → get_elem? (pick x y ∷ xs) i ≡ some r
      → (k : ℕ) × (get_elem? (x ∷ y ∷ xs) k ≡ some r)
  found_in_pair x y xs zero e = elim (Bool-cases (better y x)) [
    | inl newer ↦ (1, rw newer at e)
    | inr older ↦ (0, rw older at e)
  ]
  found_in_pair x y xs (suc i) e = (suc (suc i), e)

  -- And what a fold keeps is one of the values.
  pub foldl_found :
      (x : F) (xs : List F) → (i : ℕ) × (get_elem? (x ∷ xs) i ≡ some (foldl pick x xs))
  foldl_found x [] = (0, refl)
  foldl_found x (y ∷ xs) = let (i, e) = foldl_found (pick x y) xs in found_in_pair x y xs i e

module _ {ℓ κ} {F : Type ℓ} (P : F → Type κ) where
  abbrev pub OnSome {μ} : {A : Type μ} → (A → Type κ) → Option A → Type κ
  OnSome Q none = Unit
  OnSome Q (some x) = Q x

  pub get_elem?-All : (v : List F) (j : ℕ) → All P v → OnSome P (get_elem? v j)
  get_elem?-All [] j h = tt
  get_elem?-All (y ∷ v) zero h = h.0
  get_elem?-All (y ∷ v) (suc j) h = get_elem?-All v j h.1

  cons_column-All :
      (x : Option F) (xs : Option (List F))
      → OnSome P x
      → OnSome (All P) xs
      → OnSome (All P) (cons_column x xs)
  unfolding cons_column
  cons_column-All none xs px ps = tt
  cons_column-All (some x) none px ps = tt
  cons_column-All (some x) (some xs) px ps = (px, ps)

  pub column-All :
      (j : ℕ) (per_card : List (List F)) → All (All P) per_card → OnSome (All P) (column j per_card)
  unfolding column
  column-All j [] h = tt
  column-All j (v ∷ rest) h =
      cons_column-All (get_elem? v j) (column j rest) (get_elem?-All v j h.0)
        (column-All j rest h.1)

module _ {ℓ} {F : Type ℓ} where
  -- `r` is at index `j` of some card's buffer, and no card has a better value there.
  abbrev pub IsExtreme : (F → F → Bool) → List (List F) → ℕ → F → Type ℓ
  IsExtreme better per_card j r =
      (xs : List F) × (column j per_card ≡ some xs)
      × ((i : ℕ) × (get_elem? xs i ≡ some r))
      × All (λ y. better y r ≡ false) xs

module _ {ℓ} {F : Type ℓ} ⦃f : Float32 F⦄ where
  get_elem?-replicate :
      (n i : ℕ) (a : List F) {w : List F} → get_elem? (replicate n a) i ≡ some w → a ≡ w
  get_elem?-replicate zero i a e = cc
  get_elem?-replicate (suc n) zero a e = cc
  get_elem?-replicate (suc n) (suc i) a e = get_elem?-replicate n i a e

  -- What a call that succeeds has stored at an index, is the reduction of the column there.
  pub all_reduce_f32-reduce_column :
      (t : Topology MockSail) (op : ReduceOp) (per_card buffers : List (List F)) (i j : ℕ)
      (w : List F) (r : F)
      → all_reduce_f32 t per_card op ≡ some (ok tt, buffers)
      → get_elem? buffers i ≡ some w
      → get_elem? w j ≡ some r
      → reduce_column op (column j per_card) ≡ some r
  all_reduce_f32-reduce_column t op per_card buffers i j w r result ew er =
      let (reduced, stored, reduction) = all_reduce_f32-stored t per_card buffers op result in
      let copy = get_elem?-replicate (n_sails t) i reduced (rw stored at ew) in
      sym (reduction.at_index j) ∙ (rw (← copy) at er)

module _ {ℓ κ} {F : Type ℓ} ⦃f : Float32 F⦄ (P : F → Type κ) where
  module _ (op : ReduceOp) (better : F → F → Bool) (order : IsOrder P better)
      (reads : (x : F) (xs : List F)
        → reduce_elements op (x ∷ xs)
          ≡ some (foldl (λ acc y. if better y acc then y else acc) x xs)) where
    elements-IsExtreme :
        (per_card : List (List F)) (j : ℕ) (xs : List F) (r : F)
        → column j per_card ≡ some xs
        → All P xs
        → reduce_elements op xs ≡ some r
        → IsExtreme better per_card j r
    unfolding reduce_elements
    elements-IsExtreme per_card j [] r col ps e = absurd cc
    elements-IsExtreme per_card j (x ∷ xs) r col (px, ps) e =
        let same : foldl (λ acc y. if better y acc then y else acc) x xs ≡ r =
          some-injective _ r (sym (reads x xs) ∙ e) in
        rw (← same)
          (x ∷ xs, col, foldl_found P better order x xs, (foldl_best P better order x xs px ps).1)

    pub column-IsExtreme :
        (per_card : List (List F)) (j : ℕ) (r : F)
        → All (All P) per_card
        → reduce_column op (column j per_card) ≡ some r
        → IsExtreme better per_card j r
    unfolding reduce_column
    column-IsExtreme per_card j r ps e = elim (Option-cases (column j per_card)) [
      | inl past ↦ let none_some = rw past at e in absurd cc
      | inr (xs, col) ↦
          let on = column-All P j per_card ps in
          elements-IsExtreme per_card j xs r col (rw col at on) (rw col at e)
    ]

    reduced-IsExtreme :
        (t : Topology MockSail) (per_card buffers : List (List F)) (i j : ℕ) (w : List F) (r : F)
        → all_reduce_f32 t per_card op ≡ some (ok tt, buffers)
        → All (All P) per_card
        → get_elem? buffers i ≡ some w
        → get_elem? w j ≡ some r
        → IsExtreme better per_card j r
    reduced-IsExtreme t per_card buffers i j w r result ps ew er =
        column-IsExtreme per_card j r ps
          (all_reduce_f32-reduce_column t op per_card buffers i j w r result ew er)

  module _ (t : Topology MockSail) (per_card buffers : List (List F)) (i j : ℕ) (w : List F)
      (r : F) where
    -- After a `Max` reduction that succeeds, each element of each card's buffer is the element at that
    -- index of some card, and no card had a greater one, where `>` orders the elements of the cards
    -- as it orders numbers that are not NaN.
    pub all_reduce_f32_max :
        IsOrder P f.gt
        → all_reduce_f32 t per_card max ≡ some (ok tt, buffers)
        → All (All P) per_card
        → get_elem? buffers i ≡ some w
        → get_elem? w j ≡ some r
        → IsExtreme f.gt per_card j r
    unfolding reduce_elements
    all_reduce_f32_max order =
        reduced-IsExtreme max f.gt order (λ x xs. refl) t per_card buffers i j w r

    -- After a `Min` reduction that succeeds, each element of each card's buffer is the element at that
    -- index of some card, and no card had a smaller one, where `<` orders the elements of the cards
    -- as it orders numbers that are not NaN.
    pub all_reduce_f32_min :
        IsOrder P f.lt
        → all_reduce_f32 t per_card min ≡ some (ok tt, buffers)
        → All (All P) per_card
        → get_elem? buffers i ≡ some w
        → get_elem? w j ≡ some r
        → IsExtreme f.lt per_card j r
    unfolding reduce_elements
    all_reduce_f32_min order =
        reduced-IsExtreme min f.lt order (λ x xs. refl) t per_card buffers i j w r
