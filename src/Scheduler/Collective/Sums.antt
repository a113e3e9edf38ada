-- ===== src/Scheduler/Collective/Sums.antt =====
-- src/scheduler/src/collective.rs, `all_reduce_f32` with `Sum` and `Avg` on binary32: where no rounding
-- takes place.
use mathlib.Core.List.{foldl}
use mathlib.Core.Option.{some-injective}
use spanker.Common.{
  ℕ, lt→ltb, ℤ, pos, negsuc, refl, ◌+ℤ◌, magnitude, magnitude_add, suc, ap₂, length-map, ◌+◌, ◌*◌,
  ◌^◌, ◌≤◌, ◌≡◌, sym, ap, ◌∙◌, some, List, [], ◌∷◌, map, length, get_elem?, ok, arith,
}
use spanker.Float32.{F32, of_usize, add, div}
use spanker.Float32.Signed.{signed, add_signed}
use spanker.Scheduler.Collective.Single.{single}
use spanker.Float32.Exact.{fixed, of_usize_exact, add_exact, div_exact}
use spanker.Scheduler.Topology.{Topology, MockSail}
use spanker.Scheduler.Collective.{sum, avg, all_reduce_f32}
use spanker.Scheduler.Collective.Reduce.{column, reduce_elements, reduce_column}
use spanker.Scheduler.Collective.Extremes.{all_reduce_f32-reduce_column}

abbrev pub sum_of : List ℤ → ℤ
sum_of zs = foldl (λ x y. x +ℤ y) (pos 0) zs

abbrev pub total_magnitude : List ℤ → ℕ
total_magnitude [] = 0
total_magnitude (z ∷ zs) = magnitude z + total_magnitude zs

foldl-signed :
    (e : ℕ) (z : ℤ) (zs : List ℤ)
    → e ≤ 252
    → magnitude z + total_magnitude zs ≤ 2 ^ 24
    → foldl add (signed e z) (map (signed e) zs) ≡ signed e (foldl (λ x y. x +ℤ y) z zs)
foldl-signed e z [] he h = refl
foldl-signed e z (y ∷ zs) he h =
    ap (λ acc. foldl add acc (map (signed e) zs)) (add_signed e z y he (omega (arith, h)))
    ∙ foldl-signed e (z +ℤ y) zs he (omega (arith, h, magnitude_add z y))

zero_add : (z : ℤ) → pos 0 +ℤ z ≡ z
zero_add (pos n) = ap (λ (k : ℕ). pos k) (omega arith)
zero_add (negsuc n) = rw (lt→ltb 0 (suc n) (omega arith)) (ap (λ (k : ℕ). negsuc k) (omega arith))

reduced_sum :
    (e : ℕ) (r : F32) (zs : List ℤ)
    → e ≤ 252
    → total_magnitude zs ≤ 2 ^ 24
    → reduce_elements sum (map (signed e) zs) ≡ some r
    → r ≡ signed e (sum_of zs)
unfolding reduce_elements
reduced_sum e r [] he h reduced = cc
reduced_sum e r (z ∷ zs) he h reduced =
    sym (some-injective _ r reduced)
    ∙ foldl-signed e z zs he h
    ∙ ap (λ a. signed e (foldl (λ x y. x +ℤ y) a zs)) (sym (zero_add z))

-- After a `Sum` reduction of `f32` buffers that succeeds: where the cards' elements at an index are
-- multiples of one power of two, 2^(e - 149) and at most 2^103, with numbers of either sign whose
-- magnitudes add up to at most 2^24, and none is the negative zero, each card's element there is
-- exactly the sum.
pub all_reduce_f32_total :
    (e : ℕ) (t : Topology MockSail) (per_card buffers : List (List F32)) (i j : ℕ) (w : List F32)
    (r : F32) (zs : List ℤ)
    → e ≤ 252
    → all_reduce_f32 t per_card sum ≡ some (ok tt, buffers)
    → column j per_card ≡ some (map (signed e) zs)
    → total_magnitude zs ≤ 2 ^ 24
    → get_elem? buffers i ≡ some w
    → get_elem? w j ≡ some r
    → r ≡ signed e (sum_of zs)
unfolding reduce_column
all_reduce_f32_total e t per_card buffers i j w r zs he result col h ew er =
    let reduced = all_reduce_f32-reduce_column t sum per_card buffers i j w r result ew er in
    reduced_sum e r zs he h (rw col at reduced)

abbrev pub total : List ℕ → ℕ
total [] = 0
total (n ∷ ns) = n + total ns

foldl-fixed :
    (e m : ℕ) (ns : List ℕ)
    → e ≤ 252
    → m + total ns ≤ 2 ^ 24
    → foldl add (fixed e m) (map (fixed e) ns) ≡ fixed e (m + total ns)
foldl-fixed e m [] he h = ap (λ (n : ℕ). fixed e n) (omega arith)
foldl-fixed e m (n ∷ ns) he h =
    ap (λ acc. foldl add acc (map (fixed e) ns)) (add_exact e m n he (omega arith))
    ∙ foldl-fixed e (m + n) ns he (omega arith)
    ∙ ap (λ (k : ℕ). fixed e k) (omega arith)

reduced_mean :
    (e : ℕ) (r : F32) (ns : List ℕ) (mean : ℕ)
    → e ≤ 252
    → total ns ≤ 2 ^ 24
    → length ns ≤ 2 ^ 24
    → total ns ≡ mean * length ns
    → reduce_elements avg (map (fixed e) ns) ≡ some r
    → r ≡ fixed e mean
unfolding reduce_elements
reduced_mean e r [] mean he h size even reduced = cc
reduced_mean e r (n ∷ ns) mean he h size even reduced =
    let mean_small : mean ≤ 2 ^ 24 = omega (arith, h, even) in
    let cards : suc (length (map (fixed e) ns)) ≡ suc (length ns) =
      ap suc (length-map ns (fixed e)) in
    sym (some-injective _ r reduced)
    ∙ ap₂ div (foldl-fixed e n ns he h) (ap of_usize cards ∙ of_usize_exact (suc (length ns)) size)
    ∙ ap (λ (k : ℕ). div (fixed e k) (fixed 149 (suc (length ns)))) even
    ∙ div_exact e mean (suc (length ns)) he mean_small (omega arith)

-- After an `Avg` reduction that succeeds: where the cards' elements at an index are multiples of one
-- power of two, at most 2^103, not negative, with numbers that add up to at most 2^24 and to a
-- multiple of the number of cards, which is at most 2^24, each card's element there is exactly the
-- mean.
pub all_reduce_f32_mean :
    (e : ℕ) (t : Topology MockSail) (per_card buffers : List (List F32)) (i j : ℕ) (w : List F32)
    (r : F32) (ns : List ℕ) (mean : ℕ)
    → e ≤ 252
    → all_reduce_f32 t per_card avg ≡ some (ok tt, buffers)
    → column j per_card ≡ some (map (fixed e) ns)
    → total ns ≤ 2 ^ 24
    → length ns ≤ 2 ^ 24
    → total ns ≡ mean * length ns
    → get_elem? buffers i ≡ some w
    → get_elem? w j ≡ some r
    → r ≡ fixed e mean
unfolding reduce_column
all_reduce_f32_mean e t per_card buffers i j w r ns mean he result col h size even ew er =
    let reduced = all_reduce_f32-reduce_column t avg per_card buffers i j w r result ew er in
    reduced_mean e r ns mean he h size even (rw col at reduced)
