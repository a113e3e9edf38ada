-- ===== src/Scheduler/Collective/Traits.antt =====
-- src/scheduler/src/collective.rs: the traits `AllReduce` and `AllGather`, and their implementations for
-- the two kinds of topology.
use spanker.Common.{Option, some, List, Result}
use spanker.Runtime.Control.{SpankerControl}
use spanker.Scheduler.Failure.{Error}
use spanker.Scheduler.Topology.{Topology, MockSail}
use spanker.Scheduler.Collective
use spanker.Scheduler.Collective.{ReduceOp, Float32, device_all_reduce_f32, device_all_gather_f32}

-- The result of a reduction and the buffers afterwards; `none` is a panic.
abbrev pub Reduced {ℓ} : Type ℓ → Type ℓ
Reduced F = Option (Result Error (Unit {0}) × List (List F))

pub record AllReduce {ℓ} (F : Type ℓ) (H : Type 0) : Type ℓ where
  pub all_reduce_f32 : Topology H → List (List F) → ReduceOp → Reduced F

pub record AllGather {ℓ} (F : Type ℓ) (H : Type 0) : Type ℓ where
  pub all_gather_f32 : Topology H → List (List F) → Result Error (List F)

module _ {ℓ} {F : Type ℓ} ⦃f : Float32 F⦄ where
  instance abbrev pub mock_all_reduce : AllReduce F MockSail
  mock_all_reduce = record {
    all_reduce_f32 = λ t per_card op. Collective.all_reduce_f32 t per_card op;
  }

  instance abbrev pub device_all_reduce : AllReduce F SpankerControl
  device_all_reduce = record {
    all_reduce_f32 = λ t per_card op. some (device_all_reduce_f32 t per_card op);
  }

module _ {ℓ} {F : Type ℓ} where
  instance abbrev pub mock_all_gather : AllGather F MockSail
  mock_all_gather = record { all_gather_f32 = λ t per_card. Collective.all_gather_f32 t per_card }

  instance abbrev pub device_all_gather : AllGather F SpankerControl
  device_all_gather = record { all_gather_f32 = λ t per_card. device_all_gather_f32 t per_card }
