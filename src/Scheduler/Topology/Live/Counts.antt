-- ===== src/Scheduler/Topology/Live/Counts.antt =====
-- src/scheduler/src/topology.rs, `enumerate`: how many calls of the operating system the walk makes.
use spanker.Common.{
  ℕ, zero, suc, ◌+◌, ◌*◌, ◌<◌, ◌≡◌, refl, inl, inr, ◌⊎◌, true, Bool-cases, List, [], ◌∷◌, ◌++◌,
  length, length-append, Result, ok, err, Result-cases, arith,
}
use spanker.Runtime.Control.{Errno, SpankerControl, open_failed}
use spanker.Scheduler.Failure.{Error, no_sails, runtime}
use spanker.Scheduler.Topology.{Topology, device_path, max_devices}
use spanker.Scheduler.Topology.Live.{
  Call, looked, opened, closed, LiveHost, drop_all, walk, result_of, enumerate,
}
use spanker.Scheduler.Topology.Live.Descriptors.{walk_missing, walk_failing, walk_opening}

length-drop_all :
    (sails : List SpankerControl) (calls : List Call)
    → length (drop_all sails calls) ≡ length sails + length calls
unfolding drop_all
length-drop_all [] calls = omega arith
length-drop_all (c ∷ sails) calls = omega (arith, length-drop_all sails (closed c.file ∷ calls))

-- How a walk of `left` rounds that starts at `index` with the handles `sails` ends, with the number of
-- calls that it made by then: at its last round, at a missing node, or at one that does not open.
abbrev Walked :
    (left index : ℕ)
    → List SpankerControl
    → List Call
    → Result Error (List SpankerControl) × List Call
    → Type 0
Walked left index sails calls (result, final) =
    ((all : List SpankerControl) × (result ≡ ok all)
      × (length all ≡ length sails + left)
      × (length final ≡ 2 * left + length calls))
    ⊎ ((all : List SpankerControl) × (n : ℕ) × (result ≡ ok all)
        × (length all ≡ length sails + n)
        × (n < left)
        × (length final ≡ 2 * n + 1 + length calls))
    ⊎ ((i : ℕ) × (e : Errno) × (result ≡ err (runtime (open_failed (device_path (index + i)) e)))
        × (i < left)
        × (length final ≡ 3 * i + 2 + length sails + length calls))

-- One more node was opened before the walk.
Walked-suc :
    (left index : ℕ) (sails : List SpankerControl) (c : SpankerControl) (calls : List Call)
    (x y : Call) (r : Result Error (List SpankerControl) × List Call)
    → Walked left (index + 1) (sails ++ c ∷ []) (x ∷ y ∷ calls) r
    → Walked (suc left) index sails calls r
Walked-suc left index sails c calls x y (result, final) w =
    let more = length-append sails (c ∷ []) in
    elim w [
      | inl (all, e, len, count) ↦ inl (all, e, omega (arith, more), omega arith)
      | inr (inl (all, n, e, len, h, count)) ↦
          inr (inl (all, suc n, e, omega (arith, more), omega arith, omega arith))
      | inr (inr (i, e, failed, h, count)) ↦
          let at : index + 1 + i ≡ index + suc i = omega arith in
          inr (inr (suc i, e, rw at at failed, omega arith, omega (arith, more)))
    ]

module _ (h : LiveHost) where
  walk-Walked :
      (left index : ℕ) (sails : List SpankerControl) (calls : List Call)
      → Walked left index sails calls (walk h left index sails calls)
  unfolding walk
  walk-Walked zero index sails calls = inl (sails, refl, omega arith, omega arith)
  walk-Walked (suc left) index sails calls =
      let path = device_path index in
      elim (Bool-cases (h.exists calls path)) [
        | inr missing ↦
            rw (walk_missing h left index sails calls missing)
              (inr (inl (sails, 0, refl, omega arith, omega arith, omega arith)))
        | inl found ↦ elim (Result-cases (h.open_rw (looked path true ∷ calls) path)) [
          | inr (e, answer) ↦ rw (walk_failing h left index sails calls e found answer) (
              let dropped =
                length-drop_all sails (opened path (err e) ∷ looked path true ∷ calls) in
              let here : index + 0 ≡ index = omega arith in
              inr (inr (0, e, rw here refl, omega arith, omega (arith, dropped))))
          | inl (fd, answer) ↦ rw (walk_opening h left index sails calls fd found answer) (
              Walked-suc left index sails (record { file = fd }) calls (opened path (ok fd))
                (looked path true)
                (walk h left (index + 1) (sails ++ record { file = fd } ∷ [])
                  (opened path (ok fd) ∷ looked path true ∷ calls))
                (walk-Walked left (index + 1) (sails ++ record { file = fd } ∷ [])
                  (opened path (ok fd) ∷ looked path true ∷ calls)))
        ]
      ]

-- The outcomes of the whole walk after `calls`, with the length of the list of calls after it.
abbrev pub Counted : List Call → Result Error (Topology SpankerControl) × List Call → Type 0
Counted calls (result, final) =
    ((result ≡ err no_sails) × (length final ≡ 1 + length calls))
    ⊎ ((sails : List SpankerControl) × (result ≡ ok (record { sails = sails; links = [] }))
        × (0 < length sails)
        × (length sails < 256)
        × (length final ≡ 2 * length sails + 1 + length calls))
    ⊎ ((sails : List SpankerControl) × (result ≡ ok (record { sails = sails; links = [] }))
        × (length sails ≡ 256)
        × (length final ≡ 512 + length calls))
    ⊎ ((i : ℕ) × (e : Errno) × (result ≡ err (runtime (open_failed (device_path i) e)))
        × (i < 256)
        × (length final ≡ 3 * i + 2 + length calls))

module _ (h : LiveHost) where
  stopped-Counted :
      (all : List SpankerControl) (final calls : List Call)
      → length all < 256
      → length final ≡ 2 * length all + 1 + length calls
      → Counted calls (result_of h (ok all, final))
  stopped-Counted [] final calls less count = inl (refl, omega arith)
  stopped-Counted (c ∷ cs) final calls less count =
      inr (inl (c ∷ cs, refl, omega arith, less, count))

  capped-Counted :
      (all : List SpankerControl) (final calls : List Call)
      → length all ≡ 256
      → length final ≡ 512 + length calls
      → Counted calls (result_of h (ok all, final))
  capped-Counted [] final calls full count = absurd (omega arith)
  capped-Counted (c ∷ cs) final calls full count = inr (inr (inl (c ∷ cs, refl, full, count)))

  result_of-Counted :
      (calls : List Call) (r : Result Error (List SpankerControl) × List Call)
      → Walked 256 0 [] calls r
      → Counted calls (result_of h r)
  result_of-Counted calls (result, final) w = elim w [
    | inl (all, e, len, count) ↦ rw e (capped-Counted all final calls (omega arith) (omega arith))
    | inr (inl (all, n, e, len, less, count)) ↦
        rw e (stopped-Counted all final calls (omega arith) (omega arith))
    | inr (inr (i, e, failed, less, count)) ↦
        rw failed (inr (inr (inr (0 + i, e, refl, omega arith, omega arith))))
  ]

  -- Whatever the host answers, the walk ends, with a number of calls that its outcome tells: one
  -- call where the first node is missing; two calls for each handle and one more where it stops
  -- at a missing node; 512 calls for the cap of 256 handles; and where node `i` does not open, two
  -- for each node up to it and a close for each of the `i` handles opened before.
  pub enumerate-Counted : (calls : List Call) → Counted calls (enumerate h calls)
  unfolding enumerate
  enumerate-Counted calls =
      result_of-Counted calls (walk h max_devices 0 [] calls) (walk-Walked h max_devices 0 [] calls)
