-- ===== src/Scheduler/Collective/Shuffle.antt =====
-- src/scheduler/src/collective.rs: the cards' buffers in another order.
use mathlib.Core.Path.{subst}
use mathlib.Core.List.Permᴰ
use mathlib.Core.List.{Permᴰ}
use spanker.Common.{
  ℕ, zero, suc, ◌≡◌, refl, sym, ap, ap₂, ◌∙◌, Option, none, some, List, [], ◌∷◌, length, get_elem?,
  All, arith,
}
use spanker.Scheduler.Collective.{first_length}
use spanker.Scheduler.Collective.Validate.{HaveLength}
use spanker.Scheduler.Collective.Reduce.{column, cons_column}

module _ {ℓ} {A : Type ℓ} where
  pub length-Perm : {xs ys : List A} → Permᴰ xs ys → length xs ≡ length ys
  length-Perm Permᴰ.nil = refl
  length-Perm (Permᴰ.cons e p) = ap suc (length-Perm p)
  length-Perm (Permᴰ.swap e f) = refl
  length-Perm (Permᴰ.trans p q) = length-Perm p ∙ length-Perm q

  pub All-Perm {κ} : (P : A → Type κ) {xs ys : List A} → Permᴰ xs ys → All P xs → All P ys
  All-Perm P Permᴰ.nil h = h
  All-Perm P (Permᴰ.cons e p) h = (subst P e h.0, All-Perm P p h.1)
  All-Perm P (Permᴰ.swap e f) h = (subst P f h.1.0, (subst P e h.0, h.1.1))
  All-Perm P (Permᴰ.trans p q) h = All-Perm P q (All-Perm P p h)

  abbrev pub Contains : A → List A → Type ℓ
  Contains a xs = (i : ℕ) × (get_elem? xs i ≡ some a)

  pub Contains-Perm : (a : A) {xs ys : List A} → Permᴰ xs ys → Contains a xs → Contains a ys
  Contains-Perm a Permᴰ.nil h = h
  Contains-Perm a (Permᴰ.cons e p) (zero, h) = (zero, ap some (sym e) ∙ h)
  Contains-Perm a (Permᴰ.cons e p) (suc i, h) = let (k, g) = Contains-Perm a p (i, h) in (suc k, g)
  Contains-Perm a (Permᴰ.swap e f) (zero, h) = (1, ap some (sym e) ∙ h)
  Contains-Perm a (Permᴰ.swap e f) (suc zero, h) = (0, ap some (sym f) ∙ h)
  Contains-Perm a (Permᴰ.swap e f) (suc (suc i), h) = (suc (suc i), h)
  Contains-Perm a (Permᴰ.trans p q) h = Contains-Perm a q (Contains-Perm a p h)

module _ {ℓ} {T : Type ℓ} where
  -- Two columns that have the same elements in some order, or are both past the buffers.
  abbrev pub SameColumn : Option (List T) → Option (List T) → Type ℓ
  SameColumn none none = Unit
  SameColumn none (some ys) = ◌≡◌ {A = Option (List T)} none (some ys)
  SameColumn (some xs) none = ◌≡◌ {A = Option (List T)} (some xs) none
  SameColumn (some xs) (some ys) = Permᴰ xs ys

  SameColumn-refl : (c : Option (List T)) → SameColumn c c
  SameColumn-refl none = tt
  SameColumn-refl (some xs) = Permᴰ.refl xs

  SameColumn-trans : (c d e : Option (List T)) → SameColumn c d → SameColumn d e → SameColumn c e
  SameColumn-trans none none e p q = q
  SameColumn-trans none (some ys) e p q = absurd cc
  SameColumn-trans (some xs) none e p q = absurd cc
  SameColumn-trans (some xs) (some ys) none p q = absurd cc
  SameColumn-trans (some xs) (some ys) (some zs) p q = Permᴰ.trans p q

  cons_column-SameColumn :
      (x : Option T) (c d : Option (List T))
      → SameColumn c d
      → SameColumn (cons_column x c) (cons_column x d)
  unfolding cons_column
  cons_column-SameColumn none c d p = tt
  cons_column-SameColumn (some x) none none p = tt
  cons_column-SameColumn (some x) none (some ys) p = absurd cc
  cons_column-SameColumn (some x) (some xs) none p = absurd cc
  cons_column-SameColumn (some x) (some xs) (some ys) p = Permᴰ.cons refl p

  cons_column_swap :
      (x y : Option T) (c : Option (List T))
      → SameColumn (cons_column x (cons_column y c)) (cons_column y (cons_column x c))
  unfolding cons_column
  cons_column_swap none none c = tt
  cons_column_swap none (some y) c = tt
  cons_column_swap (some x) none c = tt
  cons_column_swap (some x) (some y) none = tt
  cons_column_swap (some x) (some y) (some xs) = Permᴰ.swap refl refl

  pub column-SameColumn :
      (j : ℕ) {cards other : List (List T)}
      → Permᴰ cards other
      → SameColumn (column j cards) (column j other)
  unfolding column
  column-SameColumn j Permᴰ.nil = Permᴰ.nil
  column-SameColumn j (Permᴰ.cons {a = v} {b = w} {l₁ = rest} {l₂ = others} e p) =
      subst
        (λ u.
          SameColumn (cons_column (get_elem? v j) (column j rest))
            (cons_column (get_elem? u j) (column j others)))
        e
        (cons_column-SameColumn (get_elem? v j) (column j rest) (column j others)
          (column-SameColumn j p))
  column-SameColumn j (Permᴰ.swap {a = v} {b = w} {a' = w'} {b' = v'} {l = rest} e f) =
      subst (λ u. SameColumn (column j (v ∷ w ∷ rest)) (column j (u ∷ v' ∷ rest))) f
        (subst (λ u. SameColumn (column j (v ∷ w ∷ rest)) (column j (w ∷ u ∷ rest))) e
          (cons_column_swap (get_elem? v j) (get_elem? w j) (column j rest)))
  column-SameColumn j (Permᴰ.trans {l₁ = cards} {l₂ = middle} {l₃ = other} p q) =
      SameColumn-trans (column j cards) (column j middle) (column j other) (column-SameColumn j p)
        (column-SameColumn j q)

  -- The first of the buffers has the same length, where all have one length.
  pub first_length-Perm :
      (stride : ℕ) (cards other : List (List T))
      → Permᴰ cards other
      → stride ≡ first_length cards
      → HaveLength stride other
      → first_length other ≡ stride
  first_length-Perm stride cards (w ∷ others) p e h = h.0
  first_length-Perm stride [] [] p e h = sym e
  first_length-Perm stride (v ∷ rest) [] p e h = absurd (omega (arith, length-Perm p))

  -- Two lists of one length with the same elements where both have one.
  pub list_ext :
      (xs ys : List T)
      → length xs ≡ length ys
      → ((j : ℕ) (x y : T) → get_elem? xs j ≡ some x → get_elem? ys j ≡ some y → x ≡ y)
      → xs ≡ ys
  list_ext [] [] e h = refl
  list_ext [] (y ∷ ys) e h = absurd (omega arith)
  list_ext (x ∷ xs) [] e h = absurd (omega arith)
  list_ext (x ∷ xs) (y ∷ ys) e h =
      ap₂ (λ z r. z ∷ r) (h 0 x y refl refl) (list_ext xs ys (omega arith) (λ j. h (suc j)))
