-- ===== src/Examples/Integration.antt =====
-- The integration tests src/backends/ggml/tests/mock_matmul.rs, each as the conjunction of its
-- assertions.
use mathlib.Core.Option
use text.Mathlib.Text.{◌==◌ as same_text}
use spanker.Common.{
  ℕ, ◌*◌, ◌/◌, ◌-◌, ◌≡◌, refl, Bool, true, false, ◌&&◌, ◌==◌, Option, none, some, List, [], ◌∷◌,
  length, replicate, take, String, Result, ok, err, checked_mul,
}
use spanker.Ggml.Layout.{
  qk_k, q4_k_block_bytes, output_elem_bytes, Error, bad_dims, output_too_small, expected_a_bytes,
  expected_b_bytes, expected_out_bytes,
}
use spanker.Ggml.Mock
use spanker.Ggml.Mock.{
  MockSail, Transaction, write, compute_submit, read, check_operands, matmul_program, matmul_q4_k,
  transactions,
}

abbrev Operands : Type 0
Operands = List ℕ × List ℕ × List ℕ

-- `none` where a size overflows `usize`, a panic.
abbrev zero_bytes : Option ℕ → Option ℕ → Option ℕ → Option Operands
zero_bytes (some a) (some b) (some out) = some (replicate a 0, replicate b 0, replicate out 0)
zero_bytes _ _ _ = none

unfoldable alloc_operands : (m k n : ℕ) → Option Operands
unfolding Option.bind checked_mul
alloc_operands m k n =
    let blocks = k / qk_k in
    zero_bytes (Option.bind (checked_mul m blocks) (λ v. checked_mul v q4_k_block_bytes))
      (Option.bind (checked_mul n blocks) (λ v. checked_mul v q4_k_block_bytes))
      (Option.bind (checked_mul m n) (λ v. checked_mul v output_elem_bytes))

abbrev is_write : Transaction → String → ℕ → Bool
is_write (write addr len label) expected size = same_text label expected && len == size
is_write _ expected size = false

abbrev is_submit : Transaction → (m k n : ℕ) → Bool
is_submit (compute_submit addr kind txn_m txn_k txn_n) m k n =
    same_text kind "matmul_q4_k" && txn_m == m && txn_k == k && txn_n == n
is_submit _ m k n = false

abbrev is_read : Transaction → String → ℕ → Bool
is_read (read addr len label) expected size = same_text label expected && len == size
is_read _ expected size = false

abbrev four_in_order : List Transaction → Operands → (m k n : ℕ) → Bool
four_in_order (w ∷ x ∷ y ∷ z ∷ []) (a, b, out) m k n =
    is_write w "A" (length a)
    && is_write x "B" (length b)
    && is_submit y m k n
    && is_read z "OUT" (length out)
four_in_order _ buffers m k n = false

abbrev Outcome : Type 0
Outcome = Result Error (Unit {0}) × MockSail

abbrev phases_issued : Outcome → Operands → (m k n : ℕ) → Bool
phases_issued (ok u, s) buffers m k n = four_in_order (transactions s) buffers m k n
phases_issued (err e, s) buffers m k n = false

abbrev is_bad_dims : Outcome → Bool
is_bad_dims (err (bad_dims m k n qk), s) = qk == qk_k
is_bad_dims _ = false

abbrev is_too_small : Outcome → ℕ → ℕ → Bool
is_too_small (err (output_too_small have need), s) h n = (have == h) && (need == n)
is_too_small _ h n = false

abbrev nothing_recorded : Outcome → Bool
nothing_recorded (ok u, s) = length (transactions s) == 0
nothing_recorded (err e, s) = false

-- A test that starts from allocated operands fails where they cannot be allocated.
abbrev with_operands : Option Operands → (Operands → Bool) → Bool
with_operands none test = false
with_operands (some buffers) test = test buffers

abbrev multiply : (m k n : ℕ) → Operands → Outcome
multiply m k n (a, b, out) = matmul_q4_k Mock.new a b out m k n

abbrev q4_k_matmul_issues_four_axi4_phases_in_order : Bool
q4_k_matmul_issues_four_axi4_phases_in_order =
    with_operands (alloc_operands 4 qk_k 4)
      (λ buffers. phases_issued (multiply 4 qk_k 4 buffers) buffers 4 qk_k 4)

abbrev matmul_rejects_unaligned_k_dimension : Bool
matmul_rejects_unaligned_k_dimension = is_bad_dims (multiply 1 100 1 ([], [], replicate 16 0))

abbrev matmul_rejects_mismatched_a_slice_length : Bool
matmul_rejects_mismatched_a_slice_length = with_operands (alloc_operands 4 qk_k 4) (λ buffers.
    let (a, b, out) = buffers in is_bad_dims (multiply 4 qk_k 4 (take (length a - 1) a, b, out)))

abbrev matmul_returns_output_too_small_when_out_undersized : Bool
matmul_returns_output_too_small_when_out_undersized =
    with_operands (alloc_operands 4 qk_k 4) (λ buffers.
      let (a, b, out) = buffers in
      is_too_small (multiply 4 qk_k 4 (a, b, replicate 4 0)) 4 (4 * 4 * output_elem_bytes))

abbrev matmul_accepts_m_zero_as_noop : Bool
matmul_accepts_m_zero_as_noop =
    with_operands (alloc_operands 0 qk_k 4)
      (λ buffers. nothing_recorded (multiply 0 qk_k 4 buffers))

integration_tests_pass :
    (q4_k_matmul_issues_four_axi4_phases_in_order && matmul_rejects_unaligned_k_dimension
      && matmul_rejects_mismatched_a_slice_length
      && matmul_returns_output_too_small_when_out_undersized && matmul_accepts_m_zero_as_noop)
    ≡ true
unfolding alloc_operands matmul_q4_k check_operands matmul_program expected_a_bytes expected_b_bytes
    expected_out_bytes transactions
integration_tests_pass = refl
