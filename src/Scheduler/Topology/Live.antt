-- ===== src/Scheduler/Topology/Live.antt =====
-- src/scheduler/src/topology.rs, `enumerate` on a host that changes, call by call: the file descriptors
-- that it opens, and those that it closes when handles go out of scope.
pub mod Descriptors
pub mod Steady
pub mod Counts
use spanker.Common.{
  ℕ, zero, suc, ◌+◌, Bool, true, false, String, List, [], ◌∷◌, ◌++◌, Result, ok, err,
}
use spanker.Runtime.Control.{Errno, Fd, SpankerControl, open_failed}
use spanker.Scheduler.Failure.{Error, no_sails, runtime}
use spanker.Scheduler.Topology.{Topology, device_path, max_devices}

-- A call of the operating system: whether a path exists, an `open`, and a `close`.
pub data Call : Type 0 where
  looked : String → Bool → Call
  opened : String → Result Errno Fd → Call
  closed : Fd → Call

-- What the operating system answers after the calls made before, the newest first.
pub record LiveHost : Type 0 where
  pub exists : List Call → String → Bool
  pub open_rw : List Call → String → Result Errno Fd

-- Handles that are dropped close their files, in the order of the vector.
unfoldable pub drop_all : List SpankerControl → List Call → List Call
drop_all [] calls = calls
drop_all (c ∷ cs) calls = drop_all cs (closed c.file ∷ calls)

module _ (h : LiveHost) where
  -- The loop of `enumerate`, with `left` rounds to go. The early return drops `sails`.
  unfoldable pub walk :
      ℕ → ℕ → List SpankerControl → List Call → Result Error (List SpankerControl) × List Call
  unfolding device_path drop_all
  walk zero index sails calls = (ok sails, calls)
  walk (suc left) index sails calls =
      let path = device_path index in
      elim (h.exists calls path) [
        | false ↦ (ok sails, looked path false ∷ calls)
        | true ↦ elim (h.open_rw (looked path true ∷ calls) path) [
          | err e ↦ (
            err (runtime (open_failed path e)),
            drop_all sails (opened path (err e) ∷ looked path true ∷ calls),
          )
          | ok fd ↦
              walk left (index + 1) (sails ++ record { file = fd } ∷ [])
                (opened path (ok fd) ∷ looked path true ∷ calls)
        ]
      ]

  abbrev pub result_of :
      Result Error (List SpankerControl) × List Call
      → Result Error (Topology SpankerControl) × List Call
  result_of (err e, calls) = (err e, calls)
  result_of (ok [], calls) = (err no_sails, calls)
  result_of (ok (c ∷ cs), calls) = (ok (record { sails = c ∷ cs; links = [] }), calls)

  unfoldable pub enumerate : List Call → Result Error (Topology SpankerControl) × List Call
  unfolding walk
  enumerate calls = result_of (walk max_devices 0 [] calls)
