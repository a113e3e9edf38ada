-- ===== src/Scheduler/Topology/Live/Steady.antt =====
-- src/scheduler/src/topology.rs, `enumerate`: a host which answers the same whatever was called before
-- is the one of `Host`.
use spanker.Common.{
  ℕ, zero, suc, ◌+◌, ◌≡◌, refl, ap, ◌∙◌, inl, inr, true, ◌==◌, if◌then◌else◌, ◌>>=◌, Bool-cases,
  List, [], ◌∷◌, ◌++◌, length, Result, ok, err, Result-cases, arith,
}
use spanker.Runtime.Control.{Host, SpankerControl, open_path}
use spanker.Scheduler.Failure.{Error, no_sails}
use spanker.Scheduler.Topology
use spanker.Scheduler.Topology.{device_path, max_devices, open_devices}
use spanker.Scheduler.Topology.Live
use spanker.Scheduler.Topology.Live.{
  Call, looked, opened, closed, LiveHost, drop_all, walk, result_of,
}
use spanker.Scheduler.Topology.Live.Descriptors.{walk_missing, walk_failing, walk_opening}

-- The host that answers the same at any time.
abbrev pub steady : Host → LiveHost
steady h = record { exists = λ calls p. h.exists p; open_rw = λ calls p. h.open_rw p }

module _ (h : Host) where
  walk-open_devices :
      (left index : ℕ) (sails : List SpankerControl) (calls : List Call)
      → (walk (steady h) left index sails calls).0 ≡ open_devices h left index sails
  unfolding walk open_devices open_path
  walk-open_devices zero index sails calls = refl
  walk-open_devices (suc left) index sails calls =
      let path = device_path index in
      elim (Bool-cases (h.exists path)) [
        | inr missing ↦
            rw (walk_missing (steady h) left index sails calls missing, open_devices, missing) refl
        | inl found ↦ elim (Result-cases (h.open_rw path)) [
          | inr (e, answer) ↦
              rw
                (
                  walk_failing (steady h) left index sails calls e found answer,
                  open_devices,
                  found,
                  answer,
                )
                refl
          | inl (fd, answer) ↦
              rw
                (
                  walk_opening (steady h) left index sails calls fd found answer,
                  open_devices,
                  found,
                  answer,
                )
                (walk-open_devices left (index + 1) (sails ++ record { file = fd } ∷ [])
                  (opened path (ok fd) ∷ looked path true ∷ calls))
        ]
      ]

  abbrev finish_walk :
      Result Error (List SpankerControl) → Result Error (Topology.Topology SpankerControl)
  finish_walk r = do
    sails ← r
    if length sails == 0 then err no_sails else ok (record { sails = sails; links = [] })

  result_of-result :
      (r : Result Error (List SpankerControl) × List Call)
      → (result_of (steady h) r).0 ≡ finish_walk r.0
  result_of-result (err e, calls) = refl
  result_of-result (ok [], calls) = refl
  result_of-result (ok (c ∷ cs), calls) = ground arith

  -- On a host whose answers do not depend on the calls made before, the walk that keeps track of the
  -- file descriptors returns what `enumerate` does.
  pub enumerate-steady :
      (calls : List Call) → (Live.enumerate (steady h) calls).0 ≡ Topology.enumerate h
  unfolding Live.enumerate Topology.enumerate
  enumerate-steady calls =
      result_of-result (walk (steady h) max_devices 0 [] calls)
      ∙ ap finish_walk (walk-open_devices max_devices 0 [] calls)
