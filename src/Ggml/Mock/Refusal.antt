-- ===== src/Ggml/Mock/Refusal.antt =====
-- src/backends/ggml/src/mock.rs and lib.rs: what the text of a refused `matmul_q4_k` says.
use spanker.Common.{ℕ, ◌*◌, ◌<◌, ◌≡◌, ◌⊎◌, inl, inr, List, [], ◌∷◌, length, numbers, err}
use spanker.Runtime.Control.{ErrnoTexts}
use spanker.Ggml.Layout.{qk_k, output_elem_bytes, Error, bad_dims, output_too_small, display}
use spanker.Ggml.Layout.Messages.{numbers-bad_dims, numbers-output_too_small}
use spanker.Ggml.Mock.{MockSail, matmul_q4_k}
use spanker.Ggml.Mock.Accepts.{IsShaped}
use spanker.Ggml.Mock.Traffic.{matmul_q4_k-cases}

module _ (a b out : List ℕ) (m k n : ℕ) where
  -- The numbers in the text are the dimensions and the block size, where the shape does not fit; or
  -- the bytes of the output buffer and those needed, which are more.
  abbrev pub SaysWhy : List ℕ → Type 0
  SaysWhy said =
      ((¬ IsShaped a b out m k n) × (said ≡ m ∷ k ∷ n ∷ qk_k ∷ 0 ∷ []))
      ⊎ ((length out < m * n * output_elem_bytes)
          × (said ≡ length out ∷ m * n * output_elem_bytes ∷ []))

  -- The text of an error of the mock says why: the numbers in it are the dimensions, the block size
  -- and the zero of the rule on `k`, where the shape does not fit the buffers or `usize`; or the size
  -- of the output buffer and the size that the product needs, which is larger. Nothing was recorded.
  pub matmul_q4_k-SaysWhy :
      (texts : ErrnoTexts) (s after : MockSail) (e : Error)
      → matmul_q4_k s a b out m k n ≡ (err e, after)
      → SaysWhy (numbers (display texts e)) × (after ≡ s)
  matmul_q4_k-SaysWhy texts s after e refused = elim (matmul_q4_k-cases s a b out m k n) [
    | inl (shaped, small, result) ↦
        let need = m * n * output_elem_bytes in
        let same : e ≡ output_too_small (length out) need = cc in
        (inr (small, rw same (numbers-output_too_small texts (length out) need)), cc)
    | inr (inl (shaped, room, result)) ↦ absurd cc
    | inr (inr (unshaped, result)) ↦
        let same : e ≡ bad_dims m k n qk_k = cc in
        (inl (unshaped, rw same (numbers-bad_dims texts m k n qk_k)), cc)
  ]
