-- ===== src/Examples/Buffers.antt =====
-- The unit tests of src/backends/ggml/src/lib.rs and mock.rs, each as the conjunction of its
-- assertions.
use text.Mathlib.Text.{◌==◌ as same_text}
use spanker.Common.{
  ℕ, ◌+◌, ◌*◌, ◌/◌, ◌-◌, ◌≡◌, refl, Bool, true, false, ◌&&◌, ◌==◌, Option, none, some, List, [],
  ◌∷◌, length, replicate, take, String, Result, ok, err,
}
use spanker.Ggml.Layout.{
  qk_k, q4_k_block_bytes, output_elem_bytes, Error, bad_dims, output_too_small, expected_a_bytes,
  expected_b_bytes, expected_out_bytes,
}
use spanker.Ggml.Mock
use spanker.Ggml.Mock.{
  MockSail, Transaction, write, compute_submit, read, check_operands, matmul_program, matmul_q4_k,
  transactions,
}

abbrev is_size : Option ℕ → ℕ → Bool
is_size (some size) expected = size == expected
is_size none expected = false

abbrev is_none : Option ℕ → Bool
is_none (some size) = false
is_none none = true

abbrev q4_k_block_bytes_matches_component_layout : Bool
q4_k_block_bytes_matches_component_layout =
    let ggml_half_bytes : ℕ = 2 in
    let k_scale_size : ℕ = 12 in
    let component_total = 2 * ggml_half_bytes + k_scale_size + qk_k / 2 in
    (q4_k_block_bytes == component_total) && (qk_k == 256)

abbrev expected_a_bytes_rejects_unaligned_or_zero_k : Bool
expected_a_bytes_rejects_unaligned_or_zero_k =
    is_none (expected_a_bytes 4 0)
    && is_none (expected_a_bytes 4 100)
    && is_size (expected_a_bytes 4 qk_k) (4 * q4_k_block_bytes)
    && is_size (expected_a_bytes 0 qk_k) 0

abbrev expected_b_bytes_matches_n_times_blocks_per_col : Bool
expected_b_bytes_matches_n_times_blocks_per_col =
    is_size (expected_b_bytes qk_k 4) (4 * q4_k_block_bytes)
    && is_size (expected_b_bytes (2 * qk_k) 4) (4 * 2 * q4_k_block_bytes)
    && is_none (expected_b_bytes (qk_k - 1) 4)

abbrev expected_out_bytes_is_m_times_n_times_f32 : Bool
expected_out_bytes_is_m_times_n_times_f32 =
    is_size (expected_out_bytes 4 4) (4 * 4 * output_elem_bytes)
    && is_size (expected_out_bytes 0 4) 0
    && is_size (expected_out_bytes 4 0) 0

layout_tests_pass :
    (q4_k_block_bytes_matches_component_layout && expected_a_bytes_rejects_unaligned_or_zero_k
      && expected_b_bytes_matches_n_times_blocks_per_col
      && expected_out_bytes_is_m_times_n_times_f32)
    ≡ true
unfolding expected_a_bytes expected_b_bytes expected_out_bytes
layout_tests_pass = refl

-- The buffers of correct size for a shape; zero bytes.
abbrev Operands : Type 0
Operands = List ℕ × List ℕ × List ℕ

abbrev alloc_operands : (m k n : ℕ) → Operands
alloc_operands m k n =
    let blocks = k / qk_k in
    (
      replicate (m * blocks * q4_k_block_bytes) 0,
      replicate (n * blocks * q4_k_block_bytes) 0,
      replicate (m * n * output_elem_bytes) 0,
    )

-- A call on a new mock with such buffers, the mock afterwards beside the result.
abbrev Outcome : Type 0
Outcome = Result Error (Unit {0}) × MockSail

abbrev on_new : (m k n : ℕ) → Operands → Outcome
on_new m k n (a, b, out) = matmul_q4_k Mock.new a b out m k n

abbrev is_write : Transaction → String → Bool
is_write (write addr len label) expected = same_text label expected
is_write _ expected = false

abbrev is_submit : Transaction → String → Bool
is_submit (compute_submit addr kind m k n) expected = same_text kind expected
is_submit _ expected = false

abbrev is_read : Transaction → String → Bool
is_read (read addr len label) expected = same_text label expected
is_read _ expected = false

abbrev four_in_order : List Transaction → Bool
four_in_order (w ∷ x ∷ y ∷ z ∷ []) =
    is_write w "A" && is_write x "B" && is_submit y "matmul_q4_k" && is_read z "OUT"
four_in_order _ = false

abbrev four_recorded : Outcome → Bool
four_recorded (ok u, s) = four_in_order (transactions s)
four_recorded (err e, s) = false

abbrev mock_records_four_transactions_in_order : Bool
mock_records_four_transactions_in_order = four_recorded (on_new 4 qk_k 4 (alloc_operands 4 qk_k 4))

abbrev is_bad_dims : Outcome → Bool
is_bad_dims (err (bad_dims m k n qk), s) = qk == qk_k
is_bad_dims _ = false

abbrev mock_rejects_unaligned_k : Bool
mock_rejects_unaligned_k = is_bad_dims (on_new 1 100 1 ([], [], replicate 16 0))

-- `pop` of a vector.
abbrev popped : List ℕ → List ℕ
popped v = take (length v - 1) v

abbrev mock_rejects_undersized_a_slice : Bool
mock_rejects_undersized_a_slice =
    let (a, b, out) = alloc_operands 4 qk_k 4 in is_bad_dims (on_new 4 qk_k 4 (popped a, b, out))

abbrev mock_rejects_undersized_b_slice : Bool
mock_rejects_undersized_b_slice =
    let (a, b, out) = alloc_operands 4 qk_k 4 in is_bad_dims (on_new 4 qk_k 4 (a, popped b, out))

abbrev is_too_small : Outcome → ℕ → ℕ → Bool
is_too_small (err (output_too_small have need), s) h n = (have == h) && (need == n)
is_too_small _ h n = false

abbrev mock_returns_output_too_small_when_out_undersized : Bool
mock_returns_output_too_small_when_out_undersized =
    let (a, b, out) = alloc_operands 4 qk_k 4 in
    is_too_small (on_new 4 qk_k 4 (a, b, replicate 4 0)) 4 (4 * 4 * output_elem_bytes)

abbrev nothing_recorded : Outcome → Bool
nothing_recorded (ok u, s) = length (transactions s) == 0
nothing_recorded (err e, s) = false

abbrev mock_accepts_m_zero_as_noop : Bool
mock_accepts_m_zero_as_noop = nothing_recorded (on_new 0 qk_k 4 (alloc_operands 0 qk_k 4))

abbrev mock_accepts_n_zero_as_noop : Bool
mock_accepts_n_zero_as_noop = nothing_recorded (on_new 4 qk_k 0 (alloc_operands 4 qk_k 0))

mock_tests_pass :
    (mock_records_four_transactions_in_order && mock_rejects_unaligned_k
      && mock_rejects_undersized_a_slice && mock_rejects_undersized_b_slice
      && mock_returns_output_too_small_when_out_undersized && mock_accepts_m_zero_as_noop
      && mock_accepts_n_zero_as_noop)
    ≡ true
unfolding matmul_q4_k check_operands matmul_program expected_a_bytes expected_b_bytes
    expected_out_bytes transactions
mock_tests_pass = refl
