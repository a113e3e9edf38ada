-- ===== src/Scheduler/Topology/Live/Descriptors.antt =====
-- src/scheduler/src/topology.rs, `enumerate`: which file descriptors stay open.
use mathlib.Core.Option
use spanker.Common.{
  ℕ, zero, suc, ◌+◌, ◌≡◌, refl, sym, ap, inl, inr, true, false, Bool-cases, Option, none, some,
  ◌==◌, if◌then◌else◌, List, [], ◌∷◌, ◌++◌, map, Result, ok, err, Result-cases, arith,
}
use spanker.Runtime.Control.{Errno, Fd, SpankerControl, open_failed}
use spanker.Scheduler.Failure.{Error, runtime}
use spanker.Scheduler.Topology.{Topology, device_path, max_devices}
use spanker.Scheduler.Topology.Live.{
  Call, looked, opened, closed, LiveHost, drop_all, walk, result_of, enumerate,
}

abbrev remove : Fd → List Fd → Option (List Fd)
remove fd [] = none
remove fd (x ∷ xs) = if x == fd then some xs else Option.map (λ r. x ∷ r) (remove fd xs)

-- The descriptors that are open after some calls, in the order of their opening; to close one that is
-- not open is a fault.
unfoldable pub held : List Call → Option (List Fd)
unfolding Option.bind
held [] = some []
held (looked path found ∷ calls) = held calls
held (opened path (ok fd) ∷ calls) = Option.map (λ fds. fds ++ fd ∷ []) (held calls)
held (opened path (err e) ∷ calls) = held calls
held (closed fd ∷ calls) = Option.bind (held calls) (remove fd)

abbrev pub files : List SpankerControl → List Fd
files sails = map (λ c. c.file) sails

-- The descriptors that a result of the loop, or of the whole walk, owns.
abbrev pub owned_files : Result Error (List SpankerControl) → List Fd
owned_files (ok sails) = files sails
owned_files (err e) = []

abbrev pub owned : Result Error (Topology SpankerControl) → List Fd
owned (ok t) = files t.sails
owned (err e) = []

files-append :
    (sails : List SpankerControl) (c : SpankerControl)
    → files (sails ++ c ∷ []) ≡ files sails ++ c.file ∷ []
files-append [] c = refl
files-append (s ∷ sails) c = ap (λ r. s.file ∷ r) (files-append sails c)

held-drop_all :
    (sails : List SpankerControl) (calls : List Call)
    → held calls ≡ some (files sails)
    → held (drop_all sails calls) ≡ some []
unfolding drop_all held Option.bind
held-drop_all [] calls h = h
held-drop_all (c ∷ sails) calls h = held-drop_all sails (closed c.file ∷ calls) (ground (arith, h))

module _ (h : LiveHost) where
  -- The three ways in which a round of the loop goes on.
  module _ (left index : ℕ) (sails : List SpankerControl) (calls : List Call) where
    pub walk_missing :
        h.exists calls (device_path index) ≡ false
        → walk h (suc left) index sails calls ≡ (ok sails, looked (device_path index) false ∷ calls)
    unfolding walk
    walk_missing missing = rw (missing, walk) refl

    pub walk_failing :
        (e : Errno)
        → h.exists calls (device_path index) ≡ true
        → h.open_rw (looked (device_path index) true ∷ calls) (device_path index) ≡ err e
        → walk h (suc left) index sails calls ≡ (
          err (runtime (open_failed (device_path index) e)),
          drop_all sails
              (opened (device_path index) (err e) ∷ looked (device_path index) true ∷ calls),
        )
    unfolding walk
    walk_failing e found answer = rw (found, walk, answer) refl

    pub walk_opening :
        (fd : Fd)
        → h.exists calls (device_path index) ≡ true
        → h.open_rw (looked (device_path index) true ∷ calls) (device_path index) ≡ ok fd
        → walk h (suc left) index sails calls
          ≡ walk h left
              (index + 1)
              (sails ++ record { file = fd } ∷ [])
              (opened (device_path index) (ok fd) ∷ looked (device_path index) true ∷ calls)
    unfolding walk
    walk_opening fd found answer = rw (found, walk, answer) refl

  abbrev Holds : Result Error (List SpankerControl) × List Call → Type 0
  Holds (result, calls) = held calls ≡ some (owned_files result)

  walk-Holds :
      (left index : ℕ) (sails : List SpankerControl) (calls : List Call)
      → held calls ≡ some (files sails)
      → Holds (walk h left index sails calls)
  unfolding walk held
  walk-Holds zero index sails calls open_now = open_now
  walk-Holds (suc left) index sails calls open_now =
      let path = device_path index in
      elim (Bool-cases (h.exists calls path)) [
        | inr missing ↦ rw (walk_missing left index sails calls missing) open_now
        | inl found ↦ elim (Result-cases (h.open_rw (looked path true ∷ calls) path)) [
          | inr (e, answer) ↦
              rw (walk_failing left index sails calls e found answer)
                (held-drop_all sails (opened path (err e) ∷ looked path true ∷ calls) open_now)
          | inl (fd, answer) ↦ rw (walk_opening left index sails calls fd found answer) (
              walk-Holds left (index + 1) (sails ++ record { file = fd } ∷ [])
                (opened path (ok fd) ∷ looked path true ∷ calls)
                (rw open_now (ap some (sym (files-append sails (record { file = fd }))))))
        ]
      ]

  result_of-held :
      (r : Result Error (List SpankerControl) × List Call)
      → Holds r
      → held (result_of h r).1 ≡ some (owned (result_of h r).0)
  result_of-held (err e, calls) open_now = open_now
  result_of-held (ok [], calls) open_now = open_now
  result_of-held (ok (c ∷ cs), calls) open_now = open_now

  -- On a host that may change with every call: where no descriptor was open before, those that are
  -- open after the walk are the files of the handles that it returns, in their order, and none where
  -- it returns an error; and none was closed that was not open.
  pub held-enumerate :
      (calls : List Call)
      → held calls ≡ some []
      → held (enumerate h calls).1 ≡ some (owned (enumerate h calls).0)
  unfolding enumerate
  held-enumerate calls none_open =
      result_of-held (walk h max_devices 0 [] calls) (walk-Holds max_devices 0 [] calls none_open)
