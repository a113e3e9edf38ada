-- ===== src/Scheduler/Topology/Enumerate.antt =====
-- src/scheduler/src/topology.rs, `enumerate`: what the device walk returns on every host.
use native.Mathlib.Nat.{add-zero}
use spanker.Common.{
  ℕ, zero, suc, ◌+◌, ◌≤◌, ◌<◌, ◌≡◌, refl, ap, sym, ◌∙◌, ◌⊎◌, inl, inr, true, false, Bool-cases,
  List, [], ◌∷◌, ◌++◌, append_assoc, append-nil, length, ◌==◌, if◌then◌else◌, ok, err, Result-cases,
  arith,
}
use spanker.Runtime.Control
use spanker.Runtime.Control.{Host, SpankerControl, open_path}
use spanker.Scheduler.Failure.{no_sails, runtime}
use spanker.Scheduler.Topology.{
  Topology, n_sails, device_path, max_devices, open_devices, enumerate,
}

module _ (h : Host) where
  -- How many device nodes exist in a row from `index`, looking at `left` of them.
  unfoldable pub present : ℕ → ℕ → ℕ
  present zero index = 0
  present (suc left) index =
      if h.exists (device_path index) then suc (present left (index + 1)) else 0

  -- The handles were opened from the device nodes `index`, `index + 1` and so on.
  abbrev pub AreOpened : ℕ → List SpankerControl → Type 0
  AreOpened index [] = Unit {0}
  AreOpened index (c ∷ cs) = (open_path h (device_path index) ≡ ok c) × AreOpened (index + 1) cs

  abbrev Opens : ℕ → ℕ → List SpankerControl → Type 0
  Opens left index sails =
      (new : List SpankerControl) × (length new ≡ present left index)
      × AreOpened index new
      × (open_devices h left index sails ≡ ok (sails ++ new))

  abbrev Fails : ℕ → ℕ → List SpankerControl → Type 0
  Fails left index sails =
      (new : List SpankerControl) × (e : Control.Error) × (length new < present left index)
      × AreOpened index new
      × (open_path h (device_path (index + length new)) ≡ err e)
      × (open_devices h left index sails ≡ err (runtime e))

  -- A device node that exists and opens is followed by the rest of the walk.
  open_devices-step :
      (left index : ℕ) (sails : List SpankerControl) (c : SpankerControl)
      → h.exists (device_path index) ≡ true
      → open_path h (device_path index) ≡ ok c
      → open_devices h (suc left) index sails ≡ open_devices h left (index + 1) (sails ++ c ∷ [])
  unfolding open_devices
  open_devices-step left index sails c e o = ground arith

  open_devices-stop :
      (left index : ℕ) (sails : List SpankerControl) (e : Control.Error)
      → h.exists (device_path index) ≡ true
      → open_path h (device_path index) ≡ err e
      → open_devices h (suc left) index sails ≡ err (runtime e)
  unfolding open_devices
  open_devices-stop left index sails e x o = ground arith

  open_devices-cases :
      (left index : ℕ) (sails : List SpankerControl)
      → Opens left index sails ⊎ Fails left index sails
  unfolding present open_devices
  open_devices-cases zero index sails = inl ([], refl, tt, ap ok (sym (append-nil sails)))
  open_devices-cases (suc left) index sails = elim (Bool-cases (h.exists (device_path index))) [
    | inr missing ↦ inl ([], ground arith, tt, ground (arith, append-nil sails))
    | inl found ↦ elim (Result-cases (open_path h (device_path index))) [
      | inr (e, o) ↦
          inr ([], e, ground arith, tt, rw add-zero o, open_devices-stop left index sails e found o)
      | inl (c, o) ↦ elim (open_devices-cases left (index + 1) (sails ++ c ∷ [])) [
        | inl (new, size, opened, result) ↦ inl (
          c ∷ new,
          ground arith,
          (o, opened),
          open_devices-step left index sails c found o
              ∙ result
              ∙ ap ok (append_assoc sails (c ∷ []) new),
        )
        | inr (new, e, size, opened, refused, result) ↦ inr (
          c ∷ new,
          e,
          ground arith,
          (o, opened),
          ap (λ i. open_path h (device_path i)) (omega arith) ∙ refused,
          open_devices-step left index sails c found o ∙ result,
        )
      ]
    ]
  ]

  present-le : (left index : ℕ) → present left index ≤ left
  unfolding present
  present-le zero index = omega arith
  present-le (suc left) index = ground (arith, present-le left (index + 1))

  present_pos :
      (left index : ℕ) → 0 < left → h.exists (device_path index) ≡ true → 0 < present left index
  unfolding present
  present_pos zero index p e = absurd (omega arith)
  present_pos (suc left) index p e = ground arith

  present_none : (left index : ℕ) → h.exists (device_path index) ≡ false → present left index ≡ 0
  unfolding present
  present_none zero index e = refl
  present_none (suc left) index e = ground arith

  enumerate-ok :
      (sails : List SpankerControl)
      → open_devices h max_devices 0 [] ≡ ok sails
      → enumerate h
        ≡ (if length sails == 0 then err no_sails else ok (record { sails = sails; links = [] }))
  unfolding enumerate
  enumerate-ok sails e = rw (e, enumerate)

  -- The three results of the walk, each with its condition.
  abbrev pub EnumerateOutcome : Type 0
  EnumerateOutcome =
      ((h.exists (device_path 0) ≡ false) × (enumerate h ≡ err no_sails))
      ⊎ ((sails : List SpankerControl) × (0 < length sails)
          × (length sails ≡ present max_devices 0)
          × AreOpened 0 sails
          × (enumerate h ≡ ok (record { sails = sails; links = [] })))
      ⊎ ((sails : List SpankerControl) × (e : Control.Error) × (length sails
            < present max_devices 0)
          × AreOpened 0 sails
          × (open_path h (device_path (length sails)) ≡ err e)
          × (enumerate h ≡ err (runtime e)))

  -- On every host the walk has one of three results: no sail, where the first device node does not
  -- exist; a topology without links whose sails are, in order, the handles opened from the device
  -- nodes up to the first that does not exist, or 256 of them; or the runtime error of the first
  -- existing device node that does not open, all before it having been opened.
  pub enumerate-cases : EnumerateOutcome
  enumerate-cases = elim (open_devices-cases max_devices 0 []) [
    | inr (new, e, size, opened, refused, result) ↦ inr (
        inr (
          new,
          e,
          size,
          opened,
          ap (λ i. open_path h (device_path i)) (omega arith) ∙ refused,
          unfold enumerate in rw (result, enumerate),
        ))
    | inl (new, size, opened, result) ↦ elim (Bool-cases (h.exists (device_path 0))) [
      | inl found ↦ inr (
          inl (
            new,
            rw size (present_pos max_devices 0 (omega arith) found),
            size,
            opened,
            enumerate-ok new result ∙ ground (arith, present_pos max_devices 0 (omega arith) found),
          ))
      | inr missing ↦
          inl
            (missing, enumerate-ok new result ∙ ground (arith, present_none max_devices 0 missing))
    ]
  ]

  -- A walk that succeeds found between one sail and 256, also on a host that has further device
  -- nodes, and no links.
  pub n_sails-enumerate :
      (t : Topology SpankerControl)
      → enumerate h ≡ ok t
      → (0 < n_sails t) × (n_sails t ≤ max_devices) × (t.links ≡ [])
  n_sails-enumerate t e = elim enumerate-cases [
    | inl (missing, result) ↦ cc
    | inr (inr (new, failure, size, opened, refused, result)) ↦ cc
    | inr (inl (new, pos, size, opened, result)) ↦ ground (arith, present-le max_devices 0)
  ]

  -- Without the first device node the walk finds no sails.
  pub enumerate_missing : h.exists (device_path 0) ≡ false → enumerate h ≡ err no_sails
  enumerate_missing missing = elim enumerate-cases [
    | inl (none_there, result) ↦ result
    | inr (inl (sails, pos, size, opened, result)) ↦
        absurd (omega (arith, present_none max_devices 0 missing))
    | inr (inr (sails, failure, size, opened, refused, result)) ↦
        absurd (omega (arith, present_none max_devices 0 missing))
  ]
