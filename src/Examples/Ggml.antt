-- ===== src/Examples/Ggml.antt =====
-- Runs of src/backends/ggml on the inputs of its tests, and the theorems about it at such inputs.
use spanker.Common.{
  ℕ, ◌+◌, ◌*◌, ◌/◌, ◌≡◌, ◌↔◌, refl, none, some, List, [], ◌∷◌, ◌++◌, replicate, numbers, ok, err,
}
use spanker.Ggml.Layout.{
  qk_k, q4_k_block_bytes, output_too_small, not_implemented, display, expected_a_bytes,
  expected_b_bytes, expected_out_bytes,
}
use spanker.Ggml.Layout.Bytes.{IsQ4, expected_a_bytes_iff}
use spanker.Ggml.Mock
use spanker.Ggml.Mock.{
  MockSail, check_operands, matmul_program, matmul_q4_k, transactions, push, write, compute_submit,
  read, push, mock_bar_a, mock_bar_b, mock_bar_out, mock_cmd_fifo,
}
use spanker.Ggml.Mock.Traffic.{
  Call, MatmulOutcome, matmul_q4_k-cases, run, all_traffic, transactions-run, phases,
}
use spanker.Ggml.Sail
use spanker.Ggml.Sail.{SailMatmul}
use spanker.Ggml.Traits.{mock_matmul, sail_matmul}
use spanker.Ggml.Mock.Refusal.{SaysWhy, matmul_q4_k-SaysWhy}
use spanker.Examples.Messages.{linux_texts}

-- `alloc_operands` of the tests.
abbrev operand : ℕ → ℕ → List ℕ
operand rows k = replicate (rows * (k / qk_k) * q4_k_block_bytes) 0

abbrev pub call : (m k n out_len : ℕ) → Call
call m k n out_len = record {
  a = operand m k;
  b = operand n k;
  out = replicate out_len 0;
  m = m;
  k = k;
  n = n;
}

-- The constant agrees with the layout of a block: two halves, the scales, and the weights' nibbles.
block_layout : q4_k_block_bytes ≡ 2 * 2 + 12 + qk_k / 2
block_layout = refl

sizes :
    (expected_a_bytes 4 0 ≡ none)
    × (expected_a_bytes 4 100 ≡ none)
    × (expected_a_bytes 4 256 ≡ some 576)
    × (expected_b_bytes 512 4 ≡ some 1152)
    × (expected_b_bytes 255 4 ≡ none)
    × (expected_out_bytes 4 4 ≡ some 64)
unfolding expected_a_bytes expected_b_bytes expected_out_bytes
sizes = (refl, refl, refl, refl, refl, refl)

bytes_of_four_rows : (expected_a_bytes 4 256 ≡ some 576) ↔ IsQ4 4 256 576
bytes_of_four_rows = expected_a_bytes_iff 4 256 576

four_phases :
    matmul_q4_k Mock.new (operand 4 256) (operand 4 256) (replicate 64 0) 4 256 4
    ≡ (ok tt, record { txns = phases 4 256 4 64 })
unfolding matmul_q4_k check_operands matmul_program expected_a_bytes expected_b_bytes
    expected_out_bytes
four_phases = refl

too_small :
    matmul_q4_k Mock.new (operand 4 256) (operand 4 256) (replicate 4 0) 4 256 4
    ≡ (err (output_too_small 4 64), Mock.new)
unfolding matmul_q4_k check_operands matmul_program expected_a_bytes expected_b_bytes
    expected_out_bytes
too_small = refl

matmul_q4_k-SaysWhy_example :
    SaysWhy
      (operand 4 256)
      (operand 4 256)
      (replicate 4 0)
      4
      256
      4
      (numbers (display linux_texts (output_too_small 4 64)))
    × (Mock.new ≡ Mock.new)
matmul_q4_k-SaysWhy_example =
    matmul_q4_k-SaysWhy (operand 4 256) (operand 4 256) (replicate 4 0) 4 256 4 linux_texts Mock.new
      Mock.new (output_too_small 4 64) too_small

matmul_q4_k-cases_example :
    MatmulOutcome Mock.new (operand 4 256) (operand 4 256) (replicate 64 0) 4 256 4
matmul_q4_k-cases_example =
    matmul_q4_k-cases Mock.new (operand 4 256) (operand 4 256) (replicate 64 0) 4 256 4

transactions-run_example :
    transactions (run Mock.new (call 4 256 4 64 ∷ call 1 100 1 16 ∷ call 1 256 1 4 ∷ []))
    ≡ transactions Mock.new ++ all_traffic (call 4 256 4 64 ∷ call 1 100 1 16 ∷ call 1 256 1 4 ∷ [])
transactions-run_example =
    transactions-run Mock.new (call 4 256 4 64 ∷ call 1 100 1 16 ∷ call 1 256 1 4 ∷ [])

-- The handle of an opened device, with its file descriptor.
abbrev sail : SailMatmul
sail = record { ctl = record { file = 3 } }

-- Through the trait: the mock is as by its method, and the device refuses and stays as it was.
mock_by_trait :
    mock_matmul.matmul_q4_k Mock.new (operand 4 256) (operand 4 256) (replicate 64 0) 4 256 4
    ≡ (ok tt, record { txns = phases 4 256 4 64 })
mock_by_trait = four_phases

device_by_trait :
    sail_matmul.matmul_q4_k sail (operand 4 256) (operand 4 256) (replicate 64 0) 4 256 4
    ≡ (err not_implemented, sail)
unfolding Sail.matmul_q4_k
device_by_trait = refl
