-- ===== src/Scheduler/Collective.antt =====
-- src/scheduler/src/collective.rs: the collective operations on the mock and on real devices.
-- An `f32` is an element of any type with the operations that the code uses.
pub mod Validate
pub mod Gather
pub mod Reduce
pub mod AllReduce
pub mod Extremes
pub mod Compose
pub mod Refusal
pub mod Unordered
pub mod Shuffle
pub mod AnyOrder
pub mod Single
pub mod Sums
pub mod SumError
pub mod SumFinite
pub mod MeanError
pub mod Traits
use spanker.Common.{
  ℕ, ◌+◌, Bool, not, ◌==◌, if◌then◌else◌, List, [], ◌∷◌, ◌++◌, map, length, Option, none, some,
  Result, ok, err, ◌>>=◌,
}
use spanker.Runtime.Control.{SpankerControl}
use spanker.Scheduler.Failure.{Error, topology_mismatch, shape_mismatch, not_implemented}
use spanker.Scheduler.Topology.{Topology, MockSail, n_sails}

pub data ReduceOp : Type 0 where
  sum : ReduceOp
  max : ReduceOp
  min : ReduceOp
  avg : ReduceOp

-- `+=`, `>`, `<`, `/=` of `f32`, and `as f32` of a `usize`.
pub record Float32 {ℓ} (F : Type ℓ) : Type ℓ where
  pub add : F → F → F
  pub gt : F → F → Bool
  pub lt : F → F → Bool
  pub div : F → F → F
  pub of_usize : ℕ → F

module _ {ℓ} {H : Type ℓ} where
  -- `TensorParallel::shard_count` and `ModelParallel::shard_count`.
  unfoldable pub tensor_shard_count : Topology H → ℕ
  tensor_shard_count t = n_sails t

  unfoldable pub model_shard_count : Topology H → ℕ
  model_shard_count t = n_sails t

module _ {ℓ} {T : Type ℓ} where
  -- `per_card.first().map(|v| v.len()).unwrap_or(0)`.
  abbrev pub first_length : List (List T) → ℕ
  first_length [] = 0
  first_length (v ∷ rest) = length v

  -- The loop of `validate_uniform`, at sail `i`.
  unfoldable pub check_strides : ℕ → ℕ → List (List T) → Result Error ℕ
  check_strides stride i [] = ok stride
  check_strides stride i (v ∷ rest) =
      if not (length v == stride)
      then err (shape_mismatch i stride (length v))
      else check_strides stride (i + 1) rest

  unfoldable pub validate_uniform : List (List T) → ℕ → Result Error ℕ
  unfolding check_strides
  validate_uniform per_card n =
      if not (length per_card == n)
      then err (topology_mismatch n (length per_card))
      else check_strides (first_length per_card) 0 per_card

  -- `for v in per_card { out.extend_from_slice(v); }`
  unfoldable pub extend_all : List T → List (List T) → List T
  extend_all out [] = out
  extend_all out (v ∷ rest) = extend_all (out ++ v) rest

  unfoldable pub all_gather_f32 : Topology MockSail → List (List T) → Result Error (List T)
  all_gather_f32 t per_card = do
    stride ← validate_uniform per_card (n_sails t)
    ok (extend_all [] per_card)

  -- `for (r, x) in reduced.iter_mut().zip(v.iter()) { combine(r, *x); }`
  unfoldable pub combine_into : (T → T → T) → List T → List T → List T
  combine_into combine [] v = []
  combine_into combine (r ∷ reduced) [] = r ∷ reduced
  combine_into combine (r ∷ reduced) (x ∷ v) = combine r x ∷ combine_into combine reduced v

  -- The loop over the cards 1..n.
  unfoldable pub fold_cards : (T → T → T) → List T → List (List T) → List T
  unfolding combine_into
  fold_cards combine reduced [] = reduced
  fold_cards combine reduced (v ∷ rest) = fold_cards combine (combine_into combine reduced v) rest

  -- The trait methods on real devices.
  unfoldable pub device_all_gather_f32 :
      Topology SpankerControl → List (List T) → Result Error (List T)
  device_all_gather_f32 t per_card =
      err (not_implemented "AllGather on real device requires SPANKER_IOC_WORK_SUBMIT (PR #6b)")

  unfoldable pub device_all_reduce_f32 :
      Topology SpankerControl → List (List T) → ReduceOp → Result Error (Unit {0}) × List (List T)
  device_all_reduce_f32 t per_card op = (
    err (not_implemented "AllReduce on real device requires SPANKER_IOC_WORK_SUBMIT (PR #6b)"),
    per_card,
  )

module _ {ℓ} {F : Type ℓ} ⦃f : Float32 F⦄ where
  -- The combinator that `match op` picks.
  unfoldable pub combinator : ReduceOp → F → F → F
  combinator sum acc x = f.add acc x
  combinator avg acc x = f.add acc x
  combinator max acc x = if f.gt x acc then x else acc
  combinator min acc x = if f.lt x acc then x else acc

  -- The division after the fold, by the number of cards.
  unfoldable pub finish : ReduceOp → ℕ → List F → List F
  finish avg n_cards reduced = map (λ r. f.div r (f.of_usize n_cards)) reduced
  finish _ n_cards reduced = reduced

  -- From `per_card[0].clone()` on. `none` is the panic of an index out of range.
  unfoldable pub reduce_cards : ReduceOp → List (List F) → Option (List F)
  reduce_cards op [] = none
  reduce_cards op (v ∷ rest) =
      some (finish op (length (v ∷ rest)) (fold_cards (combinator op) v rest))

  abbrev pub store_all : List (List F) → List F → List (List F)
  store_all per_card reduced = map (λ v. reduced) per_card

  abbrev pub store_reduced :
      List (List F) → Option (List F) → Option (Result Error (Unit {0}) × List (List F))
  store_reduced per_card none = none
  store_reduced per_card (some reduced) = some (ok tt, store_all per_card reduced)

  -- The result and the buffers afterwards; `none` is a panic.
  unfoldable pub all_reduce_f32 :
      Topology MockSail
      → List (List F)
      → ReduceOp
      → Option (Result Error (Unit {0}) × List (List F))
  all_reduce_f32 t per_card op = elim (validate_uniform per_card (n_sails t)) [
    | err e ↦ some (err e, per_card)
    | ok stride ↦
        if stride == 0
        then some (ok tt, per_card)
        else store_reduced per_card (reduce_cards op per_card)
  ]
