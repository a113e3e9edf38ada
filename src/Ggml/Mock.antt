-- ===== src/Ggml/Mock.antt =====
-- src/backends/ggml/src/mock.rs: the host-side mock and the traffic that it records.
pub mod Accepts
pub mod Traffic
pub mod Threads
pub mod Progress
pub mod Refusal
pub mod Snapshots
use spanker.Common.{
  ℕ, ◌||◌, not, ltb, ◌==◌, if◌then◌else◌, List, [], ◌∷◌, ◌++◌, length, String, Result, ok, err,
  ok_or, ◌>>=◌,
}
use spanker.Ggml.Layout.{
  qk_k, Error, bad_dims, output_too_small, unaligned, expected_a_bytes, expected_b_bytes,
  expected_out_bytes,
}

pub data Transaction : Type 0 where
  -- device address, payload length, label
  write : ℕ → ℕ → String → Transaction
  -- device address, kind, m, k, n
  compute_submit : ℕ → String → ℕ → ℕ → ℕ → Transaction
  -- device address, payload length, label
  read : ℕ → ℕ → String → Transaction

abbrev pub mock_bar_a : ℕ
mock_bar_a = 0x10000

abbrev pub mock_bar_b : ℕ
mock_bar_b = 0x20000

abbrev pub mock_bar_out : ℕ
mock_bar_out = 0x30000

abbrev pub mock_cmd_fifo : ℕ
mock_cmd_fifo = 0x4000

-- The list behind the mutex.
pub record MockSail : Type 0 where
  pub txns : List Transaction

abbrev pub new : MockSail
new = record { txns = [] }

unfoldable pub transactions : MockSail → List Transaction
transactions s = s.txns

unfoldable pub push : MockSail → Transaction → MockSail
push s txn = record s { txns = s.txns ++ txn ∷ [] }

-- The checks of `matmul_q4_k`, up to its early return for an empty product.
unfoldable pub check_operands : (a b out : List ℕ) → (m k n : ℕ) → Result Error (Unit {0})
check_operands a b out m k n =
    let bad = bad_dims m k n qk_k in
    let aligned : Result Error (Unit {0}) = if unaligned k then err bad else ok tt in
    do
      start ← aligned
      need_a ← ok_or (expected_a_bytes m k) bad
      need_b ← ok_or (expected_b_bytes k n) bad
      need_out ← ok_or (expected_out_bytes m n) bad
      if not (length a == need_a) || not (length b == need_b)
          then err bad
          else if ltb (length out) need_out
          then err (output_too_small (length out) need_out)
          else ok tt

-- What a call does to the mock that it shares with others: it pushes one transaction after another,
-- each under the mutex, and then returns.
pub data Program : Type 0 where
  returns : Result Error (Unit {0}) → Program
  pushes : Transaction → Program → Program

-- The body of `matmul_q4_k`, up to what `push` does. The output buffer is not written.
unfoldable pub matmul_program : (a b out : List ℕ) → (m k n : ℕ) → Program
matmul_program a b out m k n = elim (check_operands a b out m k n) [
  | err e ↦ returns (err e)
  | ok u ↦
      if (m == 0) || (n == 0)
      then returns (ok tt)
      else pushes (write mock_bar_a (length a) "A") (
          pushes (write mock_bar_b (length b) "B") (
            pushes (compute_submit mock_cmd_fifo "matmul_q4_k" m k n)
              (pushes (read mock_bar_out (length out) "OUT") (returns (ok tt)))))
]

-- A call that nothing interrupts, with the mock that it leaves.
unfoldable pub run_alone : MockSail → Program → Result Error (Unit {0}) × MockSail
unfolding push
run_alone s (returns r) = (r, s)
run_alone s (pushes txn rest) = run_alone (push s txn) rest

unfoldable pub matmul_q4_k :
    MockSail → (a b out : List ℕ) → (m k n : ℕ) → Result Error (Unit {0}) × MockSail
unfolding run_alone
matmul_q4_k s a b out m k n = run_alone s (matmul_program a b out m k n)
