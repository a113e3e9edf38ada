-- ===== src/Scheduler/Collective/Single.antt =====
-- src/scheduler/src/collective.rs, `all_reduce_f32` on binary32, the type that `f32` is: what rounding
-- and NaN do to its results.
use mathlib.Core.List.{Permᴰ}
use spanker.Common.{ℕ, ◌≡◌, ◌⊎◌, inl, inr, some, List, get_elem?, All, ok}
use spanker.Float32.{F32, of_usize, add, div, lt, gt}
use spanker.Float32.Comparison.{
  IsNumber, IsDistinct, IsDistinct-IsNumber, number_or_nan, lt_irreflexive, lt_asymmetric,
  lt_transitive, lt_unordered, lt_antisymmetric,
}
use spanker.Scheduler.Topology.{Topology, MockSail}
use spanker.Scheduler.Collective.{ReduceOp, sum, max, min, avg, Float32, all_reduce_f32}
use spanker.Scheduler.Collective.Unordered.{
  IsFloatOrder, IsExtremeOrFirst, all_reduce_f32-IsExtremeOrFirst,
}
use spanker.Scheduler.Collective.AnyOrder.{IsStrictOrder, all_reduce_f32-Perm}

instance abbrev pub single : Float32 F32
single = record { add = add; gt = gt; lt = lt; div = div; of_usize = of_usize }

pub lt-IsFloatOrder : IsFloatOrder IsNumber lt
lt-IsFloatOrder = record {
  ordered = record {
    irreflexive = λ x px. lt_irreflexive x;
    asymmetric = λ x y px py h. lt_asymmetric x y h;
    transitive = λ x y z px py pz h k. lt_transitive x y z py h k;
  };
  decide = number_or_nan;
  unordered = lt_unordered;
}

pub gt-IsFloatOrder : IsFloatOrder IsNumber gt
gt-IsFloatOrder = record {
  ordered = record {
    irreflexive = λ x px. lt_irreflexive x;
    asymmetric = λ x y px py h. lt_asymmetric y x h;
    transitive = λ x y z px py pz h k. lt_transitive z y x py k h;
  };
  decide = number_or_nan;
  unordered = λ x y np. let (a, b) = lt_unordered x y np in (b, a);
}

lt-IsStrictOrder : IsStrictOrder IsDistinct lt
lt-IsStrictOrder = record {
  ordered = record {
    irreflexive = λ x px. lt_irreflexive x;
    asymmetric = λ x y px py h. lt_asymmetric x y h;
    transitive = λ x y z px py pz h k. lt_transitive x y z (IsDistinct-IsNumber y py) h k;
  };
  antisymmetric = lt_antisymmetric;
}

gt-IsStrictOrder : IsStrictOrder IsDistinct gt
gt-IsStrictOrder = record {
  ordered = record {
    irreflexive = λ x px. lt_irreflexive x;
    asymmetric = λ x y px py h. lt_asymmetric y x h;
    transitive = λ x y z px py pz h k. lt_transitive z y x (IsDistinct-IsNumber y py) k h;
  };
  antisymmetric = λ x y px py h k. lt_antisymmetric x y px py k h;
}

-- After a `Max` or a `Min` reduction of `f32` buffers that succeeds: where card 0's element at an index
-- is a NaN, it is the result there; otherwise the result is an element of some card at that index that
-- is not a NaN, and no card's element there is better, a NaN of a later card being passed over.
pub all_reduce_f32_extreme :
    (op : ReduceOp) (t : Topology MockSail) (per_card buffers : List (List F32)) (i j : ℕ)
    (w : List F32) (r : F32)
    → (op ≡ max) ⊎ (op ≡ min)
    → all_reduce_f32 t per_card op ≡ some (ok tt, buffers)
    → get_elem? buffers i ≡ some w
    → get_elem? w j ≡ some r
    → IsExtremeOrFirst IsNumber op per_card j r
all_reduce_f32_extreme max t per_card buffers i j w r extreme =
    all_reduce_f32-IsExtremeOrFirst IsNumber max gt-IsFloatOrder t per_card buffers i j w r extreme
all_reduce_f32_extreme min t per_card buffers i j w r extreme =
    all_reduce_f32-IsExtremeOrFirst IsNumber min lt-IsFloatOrder t per_card buffers i j w r extreme
all_reduce_f32_extreme sum t per_card buffers i j w r (inl e) = absurd cc
all_reduce_f32_extreme sum t per_card buffers i j w r (inr e) = absurd cc
all_reduce_f32_extreme avg t per_card buffers i j w r (inl e) = absurd cc
all_reduce_f32_extreme avg t per_card buffers i j w r (inr e) = absurd cc

-- A `Max` or a `Min` reduction of `f32` buffers without NaN and without the negative zero stores the
-- same buffers whatever the order of the cards.
pub all_reduce_f32_any_order :
    (op : ReduceOp) (t : Topology MockSail) (cards other buffers : List (List F32))
    → (op ≡ max) ⊎ (op ≡ min)
    → Permᴰ cards other
    → All (All IsDistinct) cards
    → all_reduce_f32 t cards op ≡ some (ok tt, buffers)
    → all_reduce_f32 t other op ≡ some (ok tt, buffers)
all_reduce_f32_any_order max t cards other buffers extreme =
    all_reduce_f32-Perm IsDistinct max gt-IsStrictOrder extreme t cards other buffers
all_reduce_f32_any_order min t cards other buffers extreme =
    all_reduce_f32-Perm IsDistinct min lt-IsStrictOrder extreme t cards other buffers
all_reduce_f32_any_order sum t cards other buffers (inl e) = absurd cc
all_reduce_f32_any_order sum t cards other buffers (inr e) = absurd cc
all_reduce_f32_any_order avg t cards other buffers (inl e) = absurd cc
all_reduce_f32_any_order avg t cards other buffers (inr e) = absurd cc
