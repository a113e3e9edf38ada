-- ===== src/Float32/Comparison.antt =====
-- How `<` and `>` order the values of binary32: every value but NaN, the two zeros alike.
use spanker.Common.{ℕ, zero, suc, ◌≡◌, refl, ◌⊎◌, inl, inr, ap, Bool, true, false, arith}
use spanker.Float32.{F32, finite, infinity, nan, less, lt}

abbrev pub IsNumber : F32 → Type 0
IsNumber nan = ⊥
IsNumber (infinity s) = Unit
IsNumber (finite s m) = Unit

pub number_or_nan : (x : F32) → IsNumber x ⊎ (¬ IsNumber x)
number_or_nan nan = inr (λ h. h)
number_or_nan (infinity s) = inl tt
number_or_nan (finite s m) = inl tt

-- Comparing with NaN fails.
pub lt_unordered : (x y : F32) → ¬ IsNumber x → (lt x y ≡ false) × (lt y x ≡ false)
unfolding lt
lt_unordered nan nan h = (refl, refl)
lt_unordered nan (infinity s) h = (refl, refl)
lt_unordered nan (finite s m) h = (refl, refl)
lt_unordered (infinity s) y h = absurd (h tt)
lt_unordered (finite s m) y h = absurd (h tt)

pub lt_irreflexive : (x : F32) → lt x x ≡ false
unfolding lt less
lt_irreflexive nan = refl
lt_irreflexive (infinity false) = refl
lt_irreflexive (infinity true) = refl
lt_irreflexive (finite false m) = ground arith
lt_irreflexive (finite true m) = ground arith

pub lt_asymmetric : (x y : F32) → lt x y ≡ true → lt y x ≡ false
unfolding lt less
lt_asymmetric nan y h = cc
lt_asymmetric (infinity s) nan h = refl
lt_asymmetric (infinity false) (infinity t) h = cc
lt_asymmetric (infinity true) (infinity true) h = refl
lt_asymmetric (infinity true) (infinity false) h = refl
lt_asymmetric (infinity false) (finite t n) h = cc
lt_asymmetric (infinity true) (finite t n) h = refl
lt_asymmetric (finite s m) nan h = refl
lt_asymmetric (finite s m) (infinity false) h = refl
lt_asymmetric (finite s m) (infinity true) h = cc
lt_asymmetric (finite false m) (finite false n) h = ground arith
lt_asymmetric (finite false m) (finite true n) h = cc
lt_asymmetric (finite true m) (finite false n) h = refl
lt_asymmetric (finite true m) (finite true n) h = ground arith

less_transitive :
    (s t u : Bool) (l m n : ℕ) → less s l t m ≡ false → less t m u n ≡ false → less s l u n ≡ false
unfolding less
less_transitive false false false l m n h k = ground arith
less_transitive false false true l m n h k = refl
less_transitive false true false l m n h k = ground arith
less_transitive false true true l m n h k = refl
less_transitive true false false l m n h k = ground arith
less_transitive true false true l m n h k = ground arith
less_transitive true true false l m n h k = ground arith
less_transitive true true true l m n h k = ground arith

-- What is not smaller than a value that is not smaller than a third, is not smaller than that.
pub lt_transitive : (x y z : F32) → IsNumber y → lt x y ≡ false → lt y z ≡ false → lt x z ≡ false
unfolding lt
lt_transitive nan y z py h k = refl
lt_transitive (infinity false) y nan py h k = refl
lt_transitive (infinity false) y (infinity u) py h k = refl
lt_transitive (infinity false) y (finite u n) py h k = refl
lt_transitive (infinity true) nan z py h k = absurd py
lt_transitive (infinity true) (infinity true) z py h k = k
lt_transitive (infinity true) (infinity false) z py h k = cc
lt_transitive (infinity true) (finite t m) z py h k = cc
lt_transitive (finite s l) nan z py h k = absurd py
lt_transitive (finite s l) (finite t m) nan py h k = refl
lt_transitive (finite s l) (infinity t) nan py h k = refl
lt_transitive (finite s l) y (infinity true) py h k = refl
lt_transitive (finite s l) (infinity false) z py h k = cc
lt_transitive (finite s l) (infinity true) (infinity false) py h k = cc
lt_transitive (finite s l) (infinity true) (finite u n) py h k = cc
lt_transitive (finite s l) (finite t m) (infinity false) py h k = cc
lt_transitive (finite s l) (finite t m) (finite u n) py h k = less_transitive s t u l m n h k

-- Every number but the negative zero, which equals the positive one without being the same value.
abbrev pub IsDistinct : F32 → Type 0
IsDistinct nan = ⊥
IsDistinct (infinity s) = Unit
IsDistinct (finite true zero) = ⊥
IsDistinct (finite true (suc m)) = Unit
IsDistinct (finite false m) = Unit

pub IsDistinct-IsNumber : (x : F32) → IsDistinct x → IsNumber x
IsDistinct-IsNumber nan h = h
IsDistinct-IsNumber (infinity s) h = tt
IsDistinct-IsNumber (finite s m) h = tt

-- Of two different ones, one is smaller.
pub lt_antisymmetric :
    (x y : F32) → IsDistinct x → IsDistinct y → lt x y ≡ false → lt y x ≡ false → x ≡ y
unfolding lt less
lt_antisymmetric nan y px py h k = absurd px
lt_antisymmetric (infinity s) nan px py h k = absurd py
lt_antisymmetric (infinity false) (infinity false) px py h k = refl
lt_antisymmetric (infinity true) (infinity true) px py h k = refl
lt_antisymmetric (infinity false) (infinity true) px py h k = cc
lt_antisymmetric (infinity true) (infinity false) px py h k = cc
lt_antisymmetric (infinity false) (finite t n) px py h k = cc
lt_antisymmetric (infinity true) (finite t n) px py h k = cc
lt_antisymmetric (finite s m) nan px py h k = absurd py
lt_antisymmetric (finite s m) (infinity false) px py h k = cc
lt_antisymmetric (finite s m) (infinity true) px py h k = cc
lt_antisymmetric (finite false m) (finite false n) px py h k =
    ap (λ (u : ℕ). finite false u) (ground arith)
lt_antisymmetric (finite true m) (finite true n) px py h k =
    ap (λ (u : ℕ). finite true u) (ground arith)
lt_antisymmetric (finite false m) (finite true zero) px py h k = absurd py
lt_antisymmetric (finite false m) (finite true (suc n)) px py h k = absurd (ground arith)
lt_antisymmetric (finite true zero) (finite false n) px py h k = absurd px
lt_antisymmetric (finite true (suc m)) (finite false n) px py h k = absurd (ground arith)
