-- ===== src/Examples/Threads.antt =====
-- Threads on one mock of src/backends/ggml/src/mock.rs, and the theorems about them at these runs.
use spanker.Common.{
  ℕ, ◌+◌, ◌≡◌, refl, List, [], ◌∷◌, ◌++◌, map, take, length, ◌==◌, if◌then◌else◌, ok, ◌<◌,
}
use spanker.Ggml.Mock.{
  Program, returns, pushes, matmul_program, check_operands, transactions, push, write,
  compute_submit, read, mock_bar_a, mock_bar_b, mock_bar_out, mock_cmd_fifo,
}
use spanker.Ggml.Layout.{expected_a_bytes, expected_b_bytes, expected_out_bytes}
use spanker.Ggml.Mock.Traffic.{Call, traffic, phases}
use spanker.Ggml.Mock.Progress.{to_push, programs_of, total_traffic, Steps-finish}
use spanker.Ggml.Mock.Snapshots.{Steps-snapshot}
use spanker.Ggml.Mock.Threads.{
  Entry, Machine, Steps, here, next, push_next, start, after_push, recorded_by, program_of, alone,
  Steps-recorded_by,
}
use spanker.Examples.Ggml.{call}

-- Two threads, each with a call of one row and one column; the others have an empty product.
abbrev calls : ℕ → Call
calls t = if t == 0 then call 1 256 1 4 else if t == 1 then call 1 512 1 4 else call 0 256 0 0

abbrev s0 : Machine
s0 = start (λ t. program_of (calls t))

-- What is left of the call of one row and one column after each push.
abbrev read_only : Program
read_only = pushes (read mock_bar_out 4 "OUT") (returns (ok tt))

abbrev from_submit : ℕ → Program
from_submit k = pushes (compute_submit mock_cmd_fifo "matmul_q4_k" 1 k 1) read_only

abbrev from_b : (k size : ℕ) → Program
from_b k size = pushes (write mock_bar_b size "B") (from_submit k)

-- Thread 0 pushes once, and then thread 1 makes its whole call.
abbrev s1 : Machine
s1 = after_push s0 0 (write mock_bar_a 144 "A") (from_b 256 144)

abbrev s2 : Machine
s2 = after_push s1 1 (write mock_bar_a 288 "A") (from_b 512 288)

abbrev s3 : Machine
s3 = after_push s2 1 (write mock_bar_b 288 "B") (from_submit 512)

abbrev s4 : Machine
s4 = after_push s3 1 (compute_submit mock_cmd_fifo "matmul_q4_k" 1 512 1) read_only

abbrev s5 : Machine
s5 = after_push s4 1 (read mock_bar_out 4 "OUT") (returns (ok tt))

interleaved : Steps s0 s5
unfolding matmul_program check_operands expected_a_bytes expected_b_bytes expected_out_bytes
interleaved =
    next
      (next
        (next
          (next (next here (push_next 0 (write mock_bar_a 144 "A") (from_b 256 144) refl refl))
            (push_next 1 (write mock_bar_a 288 "A") (from_b 512 288) refl refl))
          (push_next 1 (write mock_bar_b 288 "B") (from_submit 512) refl refl))
        (push_next 1 (compute_submit mock_cmd_fifo "matmul_q4_k" 1 512 1) read_only refl refl))
      (push_next 1 (read mock_bar_out 4 "OUT") (returns (ok tt)) refl refl)

-- The two calls' transactions are not kept together: both writes of A come first.
not_contiguous :
    take 2 (transactions s5.sail) ≡ write mock_bar_a 144 "A" ∷ write mock_bar_a 288 "A" ∷ []
unfolding transactions push
not_contiguous = refl

Steps-recorded_by_example :
    (transactions s5.sail ≡ map (λ e. e.txn) s5.history)
    × (recorded_by 1 s5.history ≡ phases 1 512 1 4)
    × (ok tt ≡ alone (calls 1))
Steps-recorded_by_example = Steps-recorded_by calls s5 1 (ok tt) interleaved refl

-- Thread 0 goes on after thread 1 is done.
abbrev s6 : Machine
s6 = after_push s5 0 (write mock_bar_b 144 "B") (from_submit 256)

thread_0_again : Steps s5 s6
unfolding matmul_program check_operands expected_a_bytes expected_b_bytes expected_out_bytes
thread_0_again = next here (push_next 0 (write mock_bar_b 144 "B") (from_submit 256) refl refl)

Steps-snapshot_example :
    (added : List Entry) × (s6.history ≡ s5.history ++ added)
    × (transactions s6.sail ≡ transactions s5.sail ++ map (λ e. e.txn) added)
    × (recorded_by 1 added ≡ [])
    × (recorded_by 1 s6.history ≡ phases 1 512 1 4)
    × (s6.threads 1 ≡ returns (alone (calls 1)))
Steps-snapshot_example = Steps-snapshot calls s5 s6 1 (ok tt) interleaved refl thread_0_again

-- The first of two threads has pushed its first transaction.
abbrev t1 : Machine
t1 = after_push (start (programs_of 2 calls)) 1 (write mock_bar_a 288 "A") (from_b 512 288)

one_step : Steps (start (programs_of 2 calls)) t1
unfolding matmul_program check_operands expected_a_bytes expected_b_bytes expected_out_bytes
one_step = next here (push_next 1 (write mock_bar_a 288 "A") (from_b 512 288) refl refl)

Steps-finish_example :
    (length (transactions t1.sail) + to_push 2 t1.threads ≡ total_traffic 2 calls)
    × ((w : Machine) × Steps t1 w
        × (length (transactions w.sail) ≡ total_traffic 2 calls)
        × ((t : ℕ)
            → t < 2
            → (w.threads t ≡ returns (alone (calls t)))
              × (recorded_by t w.history ≡ traffic (calls t))))
Steps-finish_example = Steps-finish 2 calls t1 one_step

two_calls : total_traffic 2 calls ≡ 8
unfolding total_traffic
two_calls = refl
