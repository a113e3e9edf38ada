-- ===== src/Ggml/Mock/Snapshots.antt =====
-- src/backends/ggml/src/mock.rs: what `transactions` returns while other threads go on.
use mathlib.Core.List.{map-append}
use spanker.Common.{
  ℕ, ◌≡◌, refl, sym, ap, ◌∙◌, inl, inr, List, [], ◌∷◌, ◌++◌, append_assoc, append-nil, map, ◌==◌,
  Bool-cases, Result, arith,
}
use spanker.Ggml.Layout.{Error}
use spanker.Ggml.Mock.{Transaction, transactions, push, returns}
use spanker.Ggml.Mock.Traffic.{Call, traffic}
use spanker.Ggml.Mock.Threads.{
  Entry, Machine, Step, push_next, Steps, here, next, recorded_by, recorded_by-append, start,
  program_of, alone, Steps-recorded_by,
}

-- From `s` to `u` the entries were added to the history and to the log, none of them by `t`, which is
-- still done with the same result.
abbrev Grows : Machine → Machine → ℕ → Result Error (Unit {0}) → List Entry → Type 0
Grows s u t r added =
    (u.history ≡ s.history ++ added)
    × (transactions u.sail ≡ transactions s.sail ++ map (λ e. e.txn) added)
    × (recorded_by t added ≡ [])
    × (u.threads t ≡ returns r)

Step-Grows :
    (t : ℕ) (r : Result Error (Unit {0})) {s u : Machine}
    → Step s u
    → s.threads t ≡ returns r
    → (e : Entry) × Grows s u t r (e ∷ [])
unfolding transactions push recorded_by
Step-Grows t r {s} (push_next v x rest e next_state) idle = elim (Bool-cases (t == v)) [
  | inl same ↦ let tv : t ≡ v = ground arith in absurd cc
  | inr other ↦
      (record { owner = v; txn = x }, rw next_state (refl, refl, rw other refl, rw other idle))
]

-- One entry more at the end of the history is one transaction more at the end of the log.
logs_append :
    {log : List Transaction} (before : List Transaction) (added : List Entry) (e : Entry)
    → log ≡ before ++ map (λ x. x.txn) added
    → log ++ e.txn ∷ [] ≡ before ++ map (λ x. x.txn) (added ++ e ∷ [])
logs_append before added e logged =
    ap (λ l. l ++ e.txn ∷ []) logged
    ∙ append_assoc before (map (λ x. x.txn) added) (e.txn ∷ [])
    ∙ ap (λ l. before ++ l) (sym (map-append (λ x. x.txn) added (e ∷ [])))

Steps-Grows :
    (t : ℕ) (r : Result Error (Unit {0})) {s u : Machine}
    → Steps s u
    → s.threads t ≡ returns r
    → (added : List Entry) × Grows s u t r added
unfolding recorded_by
Steps-Grows t r {s} here idle =
    ([], (sym (append-nil s.history), sym (append-nil (transactions s.sail)), refl, idle))
Steps-Grows t r {s} (next steps st) idle =
    let (added, (grown, logged, none_of_t, still)) = Steps-Grows t r steps idle in
    let (e, (grown_more, logged_more, not_t, done)) = Step-Grows t r st still in
    (
      added ++ e ∷ [],
      (
        grown_more ∙ ap (λ h. h ++ e ∷ []) grown ∙ append_assoc s.history added (e ∷ []),
        logged_more ∙ logs_append (transactions s.sail) added e logged,
        recorded_by-append t added (e ∷ []) ∙ rw (none_of_t, not_t) refl,
        done,
      ),
    )

-- Let each thread run the pushes of `matmul_q4_k` for one call, let `t` have returned in a reachable
-- state `u`, and let the others go on to `w`. What the log gained is a suffix that holds nothing of
-- `t`, so what `transactions` returned at `u` is a prefix of what it returns at `w`; and at `w` the
-- thread has still recorded the traffic of its call and returned what the call returns alone.
pub Steps-snapshot :
    (calls : ℕ → Call) (u w : Machine) (t : ℕ) (r : Result Error (Unit {0}))
    → Steps (start (λ v. program_of (calls v))) u
    → u.threads t ≡ returns r
    → Steps u w
    → (added : List Entry) × (w.history ≡ u.history ++ added)
      × (transactions w.sail ≡ transactions u.sail ++ map (λ e. e.txn) added)
      × (recorded_by t added ≡ [])
      × (recorded_by t w.history ≡ traffic (calls t))
      × (w.threads t ≡ returns (alone (calls t)))
Steps-snapshot calls u w t r before idle after =
    let (added, (grown, logged, none_of_t, still)) = Steps-Grows t r after idle in
    let (log, recorded, result) = Steps-recorded_by calls u t r before idle in
    (
      added,
      grown,
      logged,
      none_of_t,
      rw grown (
          recorded_by-append t u.history added
          ∙ rw none_of_t (append-nil (recorded_by t u.history))
          ∙ recorded),
      still ∙ ap returns result,
    )
