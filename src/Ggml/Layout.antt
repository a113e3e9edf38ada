-- ===== src/Ggml/Layout.antt =====
-- src/backends/ggml/src/lib.rs: the Q4_K layout constants, the error type and the buffer sizes.
pub mod Bytes
pub mod Messages
use mathlib.Core.Option
use spanker.Common.{
  ℕ, ◌/◌, ◌%◌, ◌||◌, Bool, not, ◌==◌, if◌then◌else◌, Option, none, checked_mul, String, List, [],
  ◌∷◌, written, decimal,
}
use spanker.Runtime.Control
use spanker.Runtime.Control.{ErrnoTexts}

abbrev pub qk_k : ℕ
qk_k = 256

abbrev pub q4_k_block_bytes : ℕ
q4_k_block_bytes = 144

abbrev pub output_elem_bytes : ℕ
output_elem_bytes = 4

pub data Error : Type 0 where
  -- m, k, n and the block size
  bad_dims : ℕ → ℕ → ℕ → ℕ → Error
  -- the bytes that the caller has, and those that are needed
  output_too_small : ℕ → ℕ → Error
  not_implemented : Error
  runtime : Control.Error → Error

-- The `Display` of the error type.
unfoldable pub display : ErrnoTexts → Error → String
unfolding decimal Control.display
display texts (bad_dims m k n qk) = written (
    "bad dims: m="
    ∷ decimal m
    ∷ " k="
    ∷ decimal k
    ∷ " n="
    ∷ decimal n
    ∷ "; require k % "
    ∷ decimal qk
    ∷ " == 0 and slice lens consistent"
    ∷ [])
display texts (output_too_small have need) =
    written ("output buffer too small: have " ∷ decimal have ∷ " bytes, need " ∷ decimal need ∷ [])
display texts not_implemented = written (
    "SailMatmul real-device path not implemented yet: "
    ∷ "blocked on kernel driver SPANKER_IOC_WORK_SUBMIT "
    ∷ "(cross-stream Spanker #9, DDR3 work-dispatch); " ∷ "use MockSail for host-side testing" ∷ [])
display texts (runtime e) = Control.display texts e

-- `k == 0 || k % QK_K != 0`, the test of `expected_a_bytes`, `expected_b_bytes` and the mock.
abbrev pub unaligned : ℕ → Bool
unaligned k = (k == 0) || not (k % qk_k == 0)

unfoldable pub expected_a_bytes : ℕ → ℕ → Option ℕ
unfolding checked_mul Option.bind
expected_a_bytes m k =
    if unaligned k
    then none
    else let blocks_per_row = k / qk_k in
      Option.bind (checked_mul m blocks_per_row) (λ blocks. checked_mul blocks q4_k_block_bytes)

unfoldable pub expected_b_bytes : ℕ → ℕ → Option ℕ
unfolding checked_mul Option.bind
expected_b_bytes k n =
    if unaligned k
    then none
    else let blocks_per_col = k / qk_k in
      Option.bind (checked_mul n blocks_per_col) (λ blocks. checked_mul blocks q4_k_block_bytes)

unfoldable pub expected_out_bytes : ℕ → ℕ → Option ℕ
unfolding checked_mul Option.bind
expected_out_bytes m n =
    Option.bind (checked_mul m n) (λ elems. checked_mul elems output_elem_bytes)
