-- ===== src/Ggml/Traits.antt =====
-- src/backends/ggml/src/lib.rs: the trait `MatmulInt4` and its implementations for the
-- mock and for a real device.
use spanker.Common.{ℕ, List, Result}
use spanker.Ggml.Layout.{Error}
use spanker.Ggml.Mock
use spanker.Ggml.Mock.{MockSail}
use spanker.Ggml.Sail
use spanker.Ggml.Sail.{SailMatmul}

-- The state of `&self` is returned beside the result.
pub record MatmulInt4 (S : Type 0) : Type 0 where
  pub matmul_q4_k : S → (a b out : List ℕ) → (m k n : ℕ) → Result Error (Unit {0}) × S

instance abbrev pub mock_matmul : MatmulInt4 MockSail
mock_matmul = record { matmul_q4_k = λ s a b out m k n. Mock.matmul_q4_k s a b out m k n }

instance abbrev pub sail_matmul : MatmulInt4 SailMatmul
sail_matmul = record { matmul_q4_k = λ s a b out m k n. (Sail.matmul_q4_k s a b out m k n, s) }
