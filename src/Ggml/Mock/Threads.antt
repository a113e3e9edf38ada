-- ===== src/Ggml/Mock/Threads.antt =====
-- src/backends/ggml/src/mock.rs: `push` takes the mutex for one transaction at a time, so calls of
-- several threads on one mock interleave. Each thread runs the program of its `matmul_q4_k`, and a
-- step is the next `push` of one of them; the owner of each recorded transaction is kept beside it,
-- for the statements only.
use spanker.Common.{
  ℕ, ◌≡◌, refl, sym, ap, ◌∙◌, List, [], ◌∷◌, ◌++◌, append_assoc, append-nil, map, ◌==◌,
  if◌then◌else◌, Bool-cases, inl, inr, Result, arith,
}
use mathlib.Core.List.{map-append}
use spanker.Ggml.Layout.{Error}
use spanker.Ggml.Mock.{
  Transaction, MockSail, new, push, transactions, Program, returns, pushes, matmul_program,
  run_alone, matmul_q4_k,
}
use spanker.Ggml.Mock.Traffic.{Call, traffic, matmul_q4_k-traffic}

pub record Entry : Type 0 where
  pub owner : ℕ
  pub txn : Transaction

-- The shared mock, its history, and what each thread has still to do.
pub record Machine : Type 0 where
  pub sail : MockSail
  pub history : List Entry
  pub threads : ℕ → Program

abbrev pub update : (ℕ → Program) → ℕ → Program → ℕ → Program
update f t p u = if u == t then p else f u

abbrev pub after_push : Machine → ℕ → Transaction → Program → Machine
after_push s t x rest = record {
  sail = push s.sail x;
  history = s.history ++ record { owner = t; txn = x } ∷ [];
  threads = update s.threads t rest;
}

-- Any thread that has something to push may be the next one.
pub data Step (s u : Machine) : Type 0 where
  push_next :
      (t : ℕ) (x : Transaction) (rest : Program)
      → s.threads t ≡ pushes x rest
      → u ≡ after_push s t x rest
      → Step s u

pub data Steps (s : Machine) : Machine → Type 0 where
  here : Steps s s
  next : {t u : Machine} → Steps s t → Step t u → Steps s u

-- The threads' programs over an unused mock.
abbrev pub start : (ℕ → Program) → Machine
start programs = record { sail = new; history = []; threads = programs }

-- The program of a call of `matmul_q4_k`, and what the call returns on an unused mock when nothing
-- interrupts it.
abbrev pub program_of : Call → Program
program_of c = matmul_program c.a c.b c.out c.m c.k c.n

abbrev pub alone : Call → Result Error (Unit {0})
alone c = (matmul_q4_k new c.a c.b c.out c.m c.k c.n).0

-- What a program pushes, and what it returns in the end.
unfoldable pub pushed_by : Program → List Transaction
pushed_by (returns r) = []
pushed_by (pushes x rest) = x ∷ pushed_by rest

unfoldable pub answer : Program → Result Error (Unit {0})
answer (returns r) = r
answer (pushes x rest) = answer rest

run_alone-pushed_by :
    (s : MockSail) (p : Program)
    → run_alone s p ≡ (answer p, record { txns = s.txns ++ pushed_by p })
unfolding run_alone pushed_by answer push
run_alone-pushed_by s (returns r) = rw (append-nil s.txns) refl
run_alone-pushed_by s (pushes x rest) =
    run_alone-pushed_by (push s x) rest ∙ rw (append_assoc s.txns (x ∷ []) (pushed_by rest)) refl

-- The pushes of the code are the traffic that the dimensions of the call describe.
pub pushed_by-program_of : (c : Call) → pushed_by (program_of c) ≡ traffic c
unfolding matmul_q4_k
pushed_by-program_of c =
    sym (ap (λ r. r.1.txns) (run_alone-pushed_by new (program_of c)))
    ∙ ap (λ s. s.txns) (matmul_q4_k-traffic new c)

pub answer-program_of : (c : Call) → answer (program_of c) ≡ alone c
unfolding matmul_q4_k
answer-program_of c = sym (ap (λ r. r.0) (run_alone-pushed_by new (program_of c)))

-- What thread `t` recorded, in order.
unfoldable pub recorded_by : ℕ → List Entry → List Transaction
recorded_by t [] = []
recorded_by t (e ∷ es) = if t == e.owner then e.txn ∷ recorded_by t es else recorded_by t es

pub recorded_by-append :
    (t : ℕ) (es fs : List Entry) → recorded_by t (es ++ fs) ≡ recorded_by t es ++ recorded_by t fs
unfolding recorded_by
recorded_by-append t [] fs = refl
recorded_by-append t (e ∷ es) fs = ground (arith, recorded_by-append t es fs)

pub record IsConsistent (programs : ℕ → Program) (s : Machine) : Type 0 where
  pub log : transactions s.sail ≡ map (λ e. e.txn) s.history
  pub order : (t : ℕ) → recorded_by t s.history ++ pushed_by (s.threads t) ≡ pushed_by (programs t)
  pub kept : (t : ℕ) → answer (s.threads t) ≡ answer (programs t)

-- A push moves the owner's next transaction to the end of what it recorded, and leaves what it will
-- return; all else stays.
after_push_order :
    (s : Machine) (t : ℕ) (x : Transaction) (rest : Program)
    → s.threads t ≡ pushes x rest
    → (v : ℕ)
    → (recorded_by v (after_push s t x rest).history
          ++ pushed_by ((after_push s t x rest).threads v)
        ≡ recorded_by v s.history ++ pushed_by (s.threads v))
      × (answer ((after_push s t x rest).threads v) ≡ answer (s.threads v))
unfolding recorded_by pushed_by answer
after_push_order s t x rest e v = rw (recorded_by-append v s.history) (elim (Bool-cases (v == t)) [
  | inl same ↦
      let vt : v ≡ t = ground arith in
      rw (same, vt, e) (append_assoc (recorded_by t s.history) (x ∷ []) (pushed_by rest), refl)
  | inr other ↦ rw (other, append-nil) (refl, refl)
])

module _ (programs : ℕ → Program) where
  start-IsConsistent : IsConsistent programs (start programs)
  unfolding transactions recorded_by
  start-IsConsistent = record { log = refl; order = λ t. refl; kept = λ t. refl }

  Step-IsConsistent : {s u : Machine} → Step s u → IsConsistent programs s → IsConsistent programs u
  unfolding transactions push
  Step-IsConsistent {s} (push_next t x rest e next_state) v = rw next_state record {
    log = simp map-append (ap (λ l. l ++ x ∷ []) v.log);
    order = λ w. (after_push_order s t x rest e w).0 ∙ v.order w;
    kept = λ w. (after_push_order s t x rest e w).1 ∙ v.kept w;
  }

  Steps-IsConsistent : {u : Machine} → Steps (start programs) u → IsConsistent programs u
  Steps-IsConsistent here = start-IsConsistent
  Steps-IsConsistent (next r st) = Step-IsConsistent st (Steps-IsConsistent r)

  -- A thread that has returned has pushed all that its program pushes.
  pub Steps-returned :
      (u : Machine) (t : ℕ) (r : Result Error (Unit {0}))
      → Steps (start programs) u
      → u.threads t ≡ returns r
      → (transactions u.sail ≡ map (λ e. e.txn) u.history)
        × (recorded_by t u.history ≡ pushed_by (programs t))
        × (r ≡ answer (programs t))
  unfolding pushed_by answer
  Steps-returned u t r steps e =
      let v = Steps-IsConsistent steps in
      (
        v.log,
        sym (append-nil (recorded_by t u.history)) ∙ (rw e at (v.order t)),
        rw e at (v.kept t),
      )

-- Let each thread run the pushes of `matmul_q4_k` for one call. However the threads interleave, in
-- every reachable state the mock's log is the history of all pushes, and a thread that has returned
-- has recorded exactly the traffic that its dimensions describe, in order, and has returned what the
-- call returns alone on an unused mock.
pub Steps-recorded_by :
    (calls : ℕ → Call) (u : Machine) (t : ℕ) (r : Result Error (Unit {0}))
    → Steps (start (λ v. program_of (calls v))) u
    → u.threads t ≡ returns r
    → (transactions u.sail ≡ map (λ e. e.txn) u.history)
      × (recorded_by t u.history ≡ traffic (calls t))
      × (r ≡ alone (calls t))
Steps-recorded_by calls u t r steps e =
    let (log, recorded, result) = Steps-returned (λ v. program_of (calls v)) u t r steps e in
    (log, recorded ∙ pushed_by-program_of (calls t), result ∙ answer-program_of (calls t))
