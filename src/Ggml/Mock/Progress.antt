-- ===== src/Ggml/Mock/Progress.antt =====
-- src/backends/ggml/src/mock.rs: that the interleaved calls of finitely many threads come to an end,
-- whatever the schedule.
use spanker.Common.{
  ℕ, zero, suc, ◌+◌, ◌≤◌, ◌<◌, ◌≡◌, refl, ap, ◌∙◌, inl, inr, ◌⊎◌, [], ◌∷◌, length, Result, ok,
  length-append, ltb, ltb→lt, ltb→ge, lt→ltb, ◌==◌, if◌then◌else◌, Bool-cases, eq_false, arith,
}
use spanker.Ggml.Layout.{Error}
use spanker.Ggml.Mock.{Transaction, transactions, push, Program, returns, pushes}
use spanker.Ggml.Mock.Traffic.{Call, traffic}
use spanker.Ggml.Mock.Threads.{
  Machine, Step, push_next, Steps, here, next, start, update, after_push, program_of, alone,
  pushed_by, pushed_by-program_of, recorded_by, Steps-returned, answer, answer-program_of,
}

-- How many transactions the threads below `n` have still to push.
unfoldable pub to_push : ℕ → (ℕ → Program) → ℕ
to_push zero threads = 0
to_push (suc n) threads = to_push n threads + length (pushed_by (threads n))

-- The thread has returned.
abbrev pub IsDone : Program → Type 0
IsDone p = (r : Result Error (Unit {0})) × (p ≡ returns r)

-- Only the threads below `n` have anything left to do.
abbrev pub IsBelow : ℕ → (ℕ → Program) → Type 0
IsBelow n threads = (v : ℕ) → n ≤ v → threads v ≡ returns (ok tt)

-- The programs of `n` threads that make one call each.
abbrev pub programs_of : ℕ → (ℕ → Call) → ℕ → Program
programs_of n calls v = if ltb v n then program_of (calls v) else returns (ok tt)

module _ (threads : ℕ → Program) (t : ℕ) (x : Transaction) (rest : Program)
    (e : threads t ≡ pushes x rest) where
  to_push-other : (n : ℕ) → n ≤ t → to_push n (update threads t rest) ≡ to_push n threads
  unfolding to_push
  to_push-other zero h = refl
  to_push-other (suc n) h = rw (eq_false n t (omega arith), to_push-other n (omega arith)) refl

  to_push-update : (n : ℕ) → t < n → suc (to_push n (update threads t rest)) ≡ to_push n threads
  unfolding to_push pushed_by
  to_push-update zero h = absurd (omega arith)
  to_push-update (suc n) h = elim (Bool-cases (n == t)) [
    | inl same ↦
        let nt : n ≡ t = ground arith in
        let len : length (pushed_by (threads n)) ≡ suc (length (pushed_by rest)) =
          ap (λ v. length (pushed_by (threads v))) nt ∙ ap (λ p. length (pushed_by p)) e in
        rw (same, to_push-other n (omega arith)) (omega (arith, len))
    | inr other ↦ let ne : t < n = ground arith in rw other (omega (arith, to_push-update n ne))
  ]

Program-cases :
    (p : Program) → IsDone p ⊎ ((x : Transaction) × (rest : Program) × (p ≡ pushes x rest))
Program-cases (returns r) = inl (r, refl)
Program-cases (pushes x rest) = inr (x, rest, refl)

-- Either all threads below `n` have returned, or one of them has something to push.
to_push-cases :
    (n : ℕ) (threads : ℕ → Program)
    → ((v : ℕ) → v < n → IsDone (threads v))
      ⊎ ((t : ℕ) × (x : Transaction) × (rest : Program) × (t < n) × (threads t ≡ pushes x rest))
to_push-cases zero threads = inl (λ v h. absurd (omega arith))
to_push-cases (suc n) threads = elim (Program-cases (threads n)) [
  | inr (x, rest, e) ↦ inr (n, x, rest, omega arith, e)
  | inl last ↦ elim (to_push-cases n threads) [
    | inr (t, x, rest, h, e) ↦ inr (t, x, rest, omega arith, e)
    | inl others ↦ inl (λ v h. elim (Bool-cases (ltb v n)) [
      | inl before ↦ others v (ltb→lt v n before)
      | inr at_end ↦ let vn : v ≡ n = omega (arith, ltb→ge v n at_end) in rw vn last
    ])
  ]
]

to_push-done :
    (n : ℕ) (threads : ℕ → Program) → ((v : ℕ) → v < n → IsDone (threads v)) → to_push n threads ≡ 0
unfolding to_push pushed_by
to_push-done zero threads done = refl
to_push-done (suc n) threads done =
    let (r, e) = done n (omega arith) in
    rw (e, to_push-done n threads (λ v h. done v (omega arith))) refl

Steps-append : {s u w : Machine} → Steps s u → Steps u w → Steps s w
Steps-append first here = first
Steps-append first (next r st) = next (Steps-append first r) st

module _ (n : ℕ) where
  -- A step is by a thread below `n`, records one transaction and leaves one less to push.
  Step-to_push :
      {s u : Machine}
      → Step s u
      → IsBelow n s.threads
      → IsBelow n u.threads
        × (suc (to_push n u.threads) ≡ to_push n s.threads)
        × (length (transactions u.sail) ≡ suc (length (transactions s.sail)))
  unfolding transactions push
  Step-to_push {s} (push_next t x rest e next_state) below =
      let inside : t < n = elim (Bool-cases (ltb t n)) [
        | inl yes_below ↦ ltb→lt t n yes_below
        | inr past ↦ let idle = below t (ltb→ge t n past) in absurd cc
      ] in
      rw next_state (
        λ v h. rw (eq_false v t (omega arith)) (below v h),
        to_push-update s.threads t x rest e n inside,
        omega (arith, length-append s.sail.txns (x ∷ [])),
      )

  Steps-to_push :
      {s u : Machine}
      → Steps s u
      → IsBelow n s.threads
      → IsBelow n u.threads
        × (length (transactions u.sail) + to_push n u.threads
            ≡ length (transactions s.sail) + to_push n s.threads)
  Steps-to_push here below = (below, refl)
  Steps-to_push (next r st) below =
      let (still, total) = Steps-to_push r below in
      let (after, less, more) = Step-to_push st still in (after, omega arith)

  -- With `count` transactions to push, that many steps later every thread has returned.
  run_out :
      (s u : Machine) (count : ℕ)
      → Steps s u
      → IsBelow n u.threads
      → to_push n u.threads ≡ count
      → (w : Machine) × Steps s w
        × (to_push n w.threads ≡ 0)
        × ((t : ℕ) → t < n → IsDone (w.threads t))
  run_out s u zero r below e = elim (to_push-cases n u.threads) [
    | inl done ↦ (u, r, e, done)
    | inr (t, x, rest, h, et) ↦ absurd (omega (arith, to_push-update u.threads t x rest et n h))
  ]
  run_out s u (suc count) r below e = elim (to_push-cases n u.threads) [
    | inl done ↦ absurd (omega (arith, to_push-done n u.threads done))
    | inr (t, x, rest, h, et) ↦
        let st : Step u (after_push u t x rest) = push_next t x rest et refl in
        let (after, less, more) = Step-to_push st below in
        run_out s (after_push u t x rest) count (next r st) after (omega arith)
  ]

-- The length of the traffic of all calls.
unfoldable pub total_traffic : ℕ → (ℕ → Call) → ℕ
total_traffic zero calls = 0
total_traffic (suc n) calls = total_traffic n calls + length (traffic (calls n))

to_push-programs_of :
    (n m : ℕ) (calls : ℕ → Call) → n ≤ m → to_push n (programs_of m calls) ≡ total_traffic n calls
unfolding to_push total_traffic
to_push-programs_of zero m calls h = refl
to_push-programs_of (suc n) m calls h =
    rw (lt→ltb n m (omega arith), to_push-programs_of n m calls (omega arith))
      (ap (λ l. total_traffic n calls + length l) (pushed_by-program_of (calls n)))

returned :
    (n : ℕ) (calls : ℕ → Call) (w : Machine) (t : ℕ)
    → t < n
    → Steps (start (programs_of n calls)) w
    → IsDone (w.threads t)
    → (w.threads t ≡ returns (alone (calls t))) × (recorded_by t w.history ≡ traffic (calls t))
returned n calls w t h steps (r, e) =
    let (log, recorded, result) = Steps-returned (programs_of n calls) w t r steps e in
    let own : programs_of n calls t ≡ program_of (calls t) = rw (lt→ltb t n h) refl in
    (
      e ∙ ap returns (result ∙ ap answer own ∙ answer-program_of (calls t)),
      recorded ∙ ap pushed_by own ∙ pushed_by-program_of (calls t),
    )

-- Let each of `n` threads run the pushes of `matmul_q4_k` for one call. Whatever the schedule, in
-- every reachable state the number of recorded transactions and of those still to push add up to the
-- length of the traffic that the dimensions of all calls describe, so no run is longer than that. From
-- there a state can be reached in which the log has that length, and every thread has returned what
-- its call returns alone and has recorded its traffic in order; so no thread is ever stuck.
pub Steps-finish :
    (n : ℕ) (calls : ℕ → Call) (u : Machine)
    → Steps (start (programs_of n calls)) u
    → (length (transactions u.sail) + to_push n u.threads ≡ total_traffic n calls)
      × ((w : Machine) × Steps u w
          × (length (transactions w.sail) ≡ total_traffic n calls)
          × ((t : ℕ)
              → t < n
              → (w.threads t ≡ returns (alone (calls t)))
                × (recorded_by t w.history ≡ traffic (calls t))))
unfolding transactions
Steps-finish n calls u r =
    let idle : IsBelow n (programs_of n calls) = λ v h. ground arith in
    let count = to_push-programs_of n n calls (omega arith) in
    let (below, total) = Steps-to_push n r idle in
    let (w, more, none_left, done) = run_out n u u (to_push n u.threads) here below refl in
    let (still, total_then) = Steps-to_push n (Steps-append r more) idle in
    (
      omega (arith, total, count),
      (
        w,
        more,
        omega (arith, total_then, count, none_left),
        λ t h. returned n calls w t h (Steps-append r more) (done t h),
      ),
    )
