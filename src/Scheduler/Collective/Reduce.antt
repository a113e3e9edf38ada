-- ===== src/Scheduler/Collective/Reduce.antt =====
-- src/scheduler/src/collective.rs, `all_reduce_f32`: the card-by-card loops against a reduction of
-- each column of elements.
use mathlib.Core.List.{foldl}
use spanker.Common.{
  ℕ, zero, suc, ◌≤◌, ◌<◌, ◌≡◌, refl, ap, ◌∙◌, inl, inr, Option, none, some, List, [], ◌∷◌, map,
  length, length-map, get_elem?, ltb, ltb→lt, if◌then◌else◌, Bool-cases, arith,
}
use spanker.Scheduler.Collective.{
  ReduceOp, sum, max, min, avg, Float32, combinator, finish, combine_into, fold_cards,
}
use spanker.Scheduler.Collective.Validate.{HaveLength}

module _ {ℓ} {T : Type ℓ} where
  unfoldable pub cons_column : Option T → Option (List T) → Option (List T)
  cons_column (some x) (some xs) = some (x ∷ xs)
  cons_column (some x) none = none
  cons_column none xs = none

  -- The elements at index `j` of all cards, in topology order.
  unfoldable pub column : ℕ → List (List T) → Option (List T)
  unfolding cons_column
  column j [] = some []
  column j (v ∷ rest) = cons_column (get_elem? v j) (column j rest)

  length-combine_into :
      (c : T → T → T) (reduced v : List T) → length (combine_into c reduced v) ≡ length reduced
  unfolding combine_into
  length-combine_into c [] v = refl
  length-combine_into c (r ∷ reduced) [] = refl
  length-combine_into c (r ∷ reduced) (x ∷ v) = ap suc (length-combine_into c reduced v)

  get_elem?-combine_into :
      (c : T → T → T) (reduced v : List T) (j : ℕ) {r x : T}
      → get_elem? reduced j ≡ some r
      → get_elem? v j ≡ some x
      → get_elem? (combine_into c reduced v) j ≡ some (c r x)
  unfolding combine_into
  get_elem?-combine_into c [] v j hr hx = cc
  get_elem?-combine_into c (r ∷ reduced) [] j hr hx = cc
  get_elem?-combine_into c (r ∷ reduced) (x ∷ v) zero hr hx = cc
  get_elem?-combine_into c (r ∷ reduced) (x ∷ v) (suc j) hr hx =
      get_elem?-combine_into c reduced v j hr hx

  pub length-fold_cards :
      (c : T → T → T) (reduced : List T) (rest : List (List T))
      → length (fold_cards c reduced rest) ≡ length reduced
  unfolding fold_cards
  length-fold_cards c reduced [] = refl
  length-fold_cards c reduced (v ∷ rest) =
      length-fold_cards c (combine_into c reduced v) rest ∙ length-combine_into c reduced v

  -- Inside the common length every card has an element.
  get_elem?-inside : (v : List T) (j : ℕ) → j < length v → (x : T) × (get_elem? v j ≡ some x)
  get_elem?-inside [] j h = absurd (omega arith)
  get_elem?-inside (x ∷ v) zero h = (x, refl)
  get_elem?-inside (x ∷ v) (suc j) h = get_elem?-inside v j (omega arith)

  get_elem?-outside : (v : List T) (j : ℕ) → length v ≤ j → get_elem? v j ≡ none
  get_elem?-outside [] j h = refl
  get_elem?-outside (x ∷ v) zero h = absurd (omega arith)
  get_elem?-outside (x ∷ v) (suc j) h = get_elem?-outside v j (omega arith)

  -- The outer loop folds each column.
  get_elem?-fold_cards :
      (c : T → T → T) (reduced : List T) (rest : List (List T)) (stride j : ℕ) (r : T)
      → HaveLength stride rest
      → j < stride
      → get_elem? reduced j ≡ some r
      → (xs : List T) × (column j rest ≡ some xs)
        × (length xs ≡ length rest)
        × (get_elem? (fold_cards c reduced rest) j ≡ some (foldl c r xs))
  unfolding fold_cards column
  get_elem?-fold_cards c reduced [] stride j r h lt e = ([], refl, refl, e)
  get_elem?-fold_cards c reduced (v ∷ rest) stride j r h lt e =
      let (x, ex) = get_elem?-inside v j (omega arith) in
      let (xs, col, size, folded) =
        get_elem?-fold_cards c (combine_into c reduced v) rest stride j (c r x) h.1 lt
          (get_elem?-combine_into c reduced v j e ex) in
      (x ∷ xs, rw (ex, col, cons_column), ap suc size, folded)

module _ {ℓ} {F : Type ℓ} ⦃f : Float32 F⦄ where
  -- One element of the result: the cards' elements folded from card 0 on, and for an average divided
  -- by their number.
  unfoldable pub reduce_elements : ReduceOp → List F → Option F
  reduce_elements op [] = none
  reduce_elements avg (x ∷ xs) = some (f.div (foldl f.add x xs) (f.of_usize (length (x ∷ xs))))
  reduce_elements sum (x ∷ xs) = some (foldl f.add x xs)
  reduce_elements max (x ∷ xs) = some (foldl (λ acc y. if f.gt y acc then y else acc) x xs)
  reduce_elements min (x ∷ xs) = some (foldl (λ acc y. if f.lt y acc then y else acc) x xs)

  -- The elements at index `j` of all cards, reduced; none where `j` is past the buffers.
  unfoldable pub reduce_column : ReduceOp → Option (List F) → Option F
  unfolding reduce_elements
  reduce_column op none = none
  reduce_column op (some xs) = reduce_elements op xs

  pub length-finish :
      (op : ReduceOp) (n : ℕ) (reduced : List F) → length (finish op n reduced) ≡ length reduced
  unfolding finish
  length-finish avg n reduced = length-map reduced _
  length-finish sum n reduced = refl
  length-finish max n reduced = refl
  length-finish min n reduced = refl

  get_elem?-map :
      (g : F → F) (xs : List F) (j : ℕ) {x : F}
      → get_elem? xs j ≡ some x
      → get_elem? (map g xs) j ≡ some (g x)
  get_elem?-map g [] j e = cc
  get_elem?-map g (x ∷ xs) zero e = cc
  get_elem?-map g (x ∷ xs) (suc j) e = get_elem?-map g xs j e

  get_elem?-finish :
      (op : ReduceOp) (reduced : List F) (j : ℕ) (x : F) (xs : List F) (n : ℕ)
      → length (x ∷ xs) ≡ n
      → get_elem? reduced j ≡ some (foldl (combinator op) x xs)
      → get_elem? (finish op n reduced) j ≡ reduce_elements op (x ∷ xs)
  unfolding finish reduce_elements combinator
  get_elem?-finish avg reduced j x xs n h e = rw (← h) (get_elem?-map _ reduced j e)
  get_elem?-finish sum reduced j x xs n h e = e
  get_elem?-finish max reduced j x xs n h e = e
  get_elem?-finish min reduced j x xs n h e = e

  pub get_elem?-reduced :
      (op : ReduceOp) (v : List F) (rest : List (List F)) (stride j : ℕ)
      → HaveLength stride (v ∷ rest)
      → get_elem? (finish op (length (v ∷ rest)) (fold_cards (combinator op) v rest)) j
        ≡ reduce_column op (column j (v ∷ rest))
  unfolding reduce_column column
  get_elem?-reduced op v rest stride j h = elim (Bool-cases (ltb j stride)) [
    | inl inside ↦
        let (x, ex) = get_elem?-inside v j (ground arith) in
        let (xs, col, size, folded) =
          get_elem?-fold_cards (combinator op) v rest stride j x h.1 (ltb→lt j stride inside) ex in
        rw (ex, col, cons_column)
          (get_elem?-finish op (fold_cards (combinator op) v rest) j x xs (length (v ∷ rest))
            (ap suc size) folded)
    | inr outside ↦
        let past : length v ≤ j = ground arith in
        rw (get_elem?-outside v j past, cons_column)
          (get_elem?-outside (finish op (length (v ∷ rest)) (fold_cards (combinator op) v rest)) j (
            omega (
              arith,
              length-finish op (length (v ∷ rest)) (fold_cards (combinator op) v rest),
              length-fold_cards (combinator op) v rest,
            )))
  ]
