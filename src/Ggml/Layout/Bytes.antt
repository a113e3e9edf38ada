-- ===== src/Ggml/Layout/Bytes.antt =====
-- src/backends/ggml/src/lib.rs, `expected_a_bytes`, `expected_b_bytes`, `expected_out_bytes`: when a
-- size is returned, and which.
use spanker.Common.{ℕ, ◌*◌, ◌/◌, ◌%◌, ◌≤◌, ◌<◌, ◌≡◌, ◌↔◌, some, word_max, arith}
use spanker.Ggml.Layout.{
  qk_k, q4_k_block_bytes, output_elem_bytes, expected_a_bytes, expected_b_bytes, expected_out_bytes,
}

-- An operand of `rows` rows of `k` weights: whole blocks, and a size that `usize` holds.
pub record IsQ4 (rows k size : ℕ) : Type 0 where
  pub positive : 0 < k
  pub aligned : k % qk_k ≡ 0
  pub exact : size ≡ rows * (k / qk_k) * q4_k_block_bytes
  pub fits : size ≤ word_max

-- `expected_a_bytes` returns a size exactly when `k` is a positive multiple of the block size and
-- the size fits `usize`, and then it is rows times blocks times block bytes.
pub expected_a_bytes_iff : (m k size : ℕ) → (expected_a_bytes m k ≡ some size) ↔ IsQ4 m k size
unfolding expected_a_bytes
expected_a_bytes_iff m k size = ground arith

-- `expected_b_bytes` returns a size exactly when `k` is a positive multiple of the block size and
-- the size fits `usize`, and then it is columns times blocks times block bytes.
pub expected_b_bytes_iff : (k n size : ℕ) → (expected_b_bytes k n ≡ some size) ↔ IsQ4 n k size
unfolding expected_b_bytes
expected_b_bytes_iff k n size = ground arith

-- `expected_out_bytes` returns a size exactly when rows times columns times the output element's
-- bytes fits `usize`, and then it is that product.
pub expected_out_bytes_iff :
    (m n size : ℕ)
    → (expected_out_bytes m n ≡ some size)
      ↔ ((size ≡ m * n * output_elem_bytes) × (size ≤ word_max))
unfolding expected_out_bytes
expected_out_bytes_iff m n size = ground arith
