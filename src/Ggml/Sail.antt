-- ===== src/Ggml/Sail.antt =====
-- src/backends/ggml/src/sail.rs: the real-device path, deferred.
use spanker.Common.{ℕ, List, Result, err}
use spanker.Runtime.Control.{SpankerControl}
use spanker.Ggml.Layout.{Error, not_implemented}

pub record SailMatmul : Type 0 where
  pub ctl : SpankerControl

abbrev pub new : SpankerControl → SailMatmul
new ctl = record { ctl = ctl }

unfoldable pub matmul_q4_k : SailMatmul → (a b out : List ℕ) → (m k n : ℕ) → Result Error (Unit {0})
matmul_q4_k s a b out m k n = err not_implemented
