-- ===== src/Ggml/Mock/Accepts.antt =====
-- src/backends/ggml/src/mock.rs, `matmul_q4_k`: which calls are accepted, and how the others fail.
use spanker.Common.{
  ℕ, ◌*◌, ◌≤◌, ◌<◌, ◌≡◌, ◌⊎◌, inl, inr, List, length, Option-cases, ok, err, word_max, arith,
}
use spanker.Ggml.Layout.{qk_k, output_elem_bytes, bad_dims, output_too_small, expected_out_bytes}
use spanker.Ggml.Layout.Bytes.{
  IsQ4, expected_a_bytes_iff, expected_b_bytes_iff, expected_out_bytes_iff,
}
use spanker.Ggml.Mock.{check_operands}

module _ (a b out : List ℕ) (m k n : ℕ) where
  -- Both operands have the size of their declared shape, and the output's size fits `usize`.
  pub record IsShaped : Type 0 where
    pub a_size : IsQ4 m k (length a)
    pub b_size : IsQ4 n k (length b)
    pub out_fits : m * n * output_elem_bytes ≤ word_max

  -- Every call is of one of three kinds, each with its result: a shape that fits and an output
  -- buffer that is too small, a shape that fits and room for the output, or no fitting shape.
  pub check_operands-cases :
      (IsShaped
        × (length out < m * n * output_elem_bytes)
        × (check_operands a b out m k n
            ≡ err (output_too_small (length out) (m * n * output_elem_bytes))))
      ⊎ (IsShaped
          × (m * n * output_elem_bytes ≤ length out)
          × (check_operands a b out m k n ≡ ok tt))
      ⊎ ((¬ IsShaped) × (check_operands a b out m k n ≡ err (bad_dims m k n qk_k)))
  unfolding check_operands
  check_operands-cases = elim (Option-cases (expected_out_bytes m n)) [
    | inl none_out ↦ ground (arith, expected_out_bytes_iff m n (m * n * output_elem_bytes))
    | inr (need, some_out) ↦ ground (
      arith,
      expected_a_bytes_iff m k (length a),
      expected_b_bytes_iff k n (length b),
      expected_out_bytes_iff m n need,
    )
  ]
