-- ===== src/Ggml/Mock/Traffic.antt =====
-- src/backends/ggml/src/mock.rs, `matmul_q4_k`: the traffic of one call and of a sequence of calls,
-- against a description by the dimensions alone.
use spanker.Common.{
  ℕ, ◌*◌, ◌/◌, ◌%◌, ◌≤◌, ◌<◌, ◌≡◌, refl, sym, ◌∙◌, ◌⊎◌, inl, inr, List, [], ◌∷◌, ◌++◌, append_assoc,
  append-nil, length, Bool, ◌&&◌, ◌||◌, leb, ◌==◌, if◌then◌else◌, ok, err, word_max, arith,
}
use spanker.Ggml.Layout.{qk_k, q4_k_block_bytes, output_elem_bytes, bad_dims, output_too_small}
use spanker.Ggml.Mock.{
  Transaction, write, compute_submit, read, mock_bar_a, mock_bar_b, mock_bar_out, mock_cmd_fifo,
  MockSail, transactions, push, matmul_program, run_alone, matmul_q4_k,
}
use spanker.Ggml.Mock.Accepts.{IsShaped, check_operands-cases}

-- The four phases of a product, with operand sizes computed from the shape.
abbrev pub phases : (m k n out_len : ℕ) → List Transaction
phases m k n out_len =
    write mock_bar_a (m * (k / qk_k) * q4_k_block_bytes) "A"
    ∷ write mock_bar_b (n * (k / qk_k) * q4_k_block_bytes) "B"
    ∷ compute_submit mock_cmd_fifo "matmul_q4_k" m k n
    ∷ read mock_bar_out out_len "OUT"
    ∷ []

-- An empty product needs no traffic.
abbrev pub product_traffic : (m k n out_len : ℕ) → List Transaction
product_traffic m k n out_len = if (m == 0) || (n == 0) then [] else phases m k n out_len

-- Four recorded transactions stand behind the older ones, in their order.
push_four :
    (s : MockSail) (w x y z : Transaction)
    → push (push (push (push s w) x) y) z ≡ record { txns = s.txns ++ w ∷ x ∷ y ∷ z ∷ [] }
unfolding push
push_four s w x y z = simp append_assoc

module _ (s : MockSail) (a b out : List ℕ) (m k n : ℕ) where
  -- The three outcomes of a call, each with its condition.
  abbrev pub MatmulOutcome : Type 0
  MatmulOutcome =
      (IsShaped a b out m k n
        × (length out < m * n * output_elem_bytes)
        × (matmul_q4_k s a b out m k n
            ≡ (err (output_too_small (length out) (m * n * output_elem_bytes)), s)))
      ⊎ (IsShaped a b out m k n
          × (m * n * output_elem_bytes ≤ length out)
          × (matmul_q4_k s a b out m k n
              ≡ (ok tt, record { txns = s.txns ++ product_traffic m k n (length out) })))
      ⊎ ((¬ IsShaped a b out m k n)
          × (matmul_q4_k s a b out m k n ≡ (err (bad_dims m k n qk_k), s)))

  -- The call has one of three outcomes, and each one happens exactly under its condition: the output
  -- buffer is too small for a shape that fits, and the log is unchanged; the call succeeds, and the
  -- log grows by the traffic of the product, whose operand sizes are those of the shape; or the
  -- shape does not fit the buffers or `usize`, and the log is unchanged.
  pub matmul_q4_k-cases : MatmulOutcome
  matmul_q4_k-cases = elim (check_operands-cases a b out m k n) [
    | inl small ↦ inl (
      small.0,
      small.1,
      unfold matmul_q4_k matmul_program run_alone in rw (matmul_q4_k, matmul_program, small.2) refl,
    )
    | inr (inl fine) ↦ inr (
        inl (
          fine.0,
          fine.1,
          unfold matmul_q4_k matmul_program run_alone in
              rw (matmul_q4_k, matmul_program, fine.2)
                (ground (
                  arith,
                  append-nil s.txns,
                  push_four s (write mock_bar_a (length a) "A") (write mock_bar_b (length b) "B")
                      (compute_submit mock_cmd_fifo "matmul_q4_k" m k n)
                      (read mock_bar_out (length out) "OUT"),
                )),
        ))
    | inr (inr bad) ↦ inr (
        inr (
          bad.0,
          unfold matmul_q4_k matmul_program run_alone in
              rw (matmul_q4_k, matmul_program, bad.1) refl,
        ))
  ]

-- A call to the mock, with its buffers and dimensions.
pub record Call : Type 0 where
  pub a : List ℕ
  pub b : List ℕ
  pub out : List ℕ
  pub m : ℕ
  pub k : ℕ
  pub n : ℕ

-- Calls one after the other; a caller that gets an error goes on.
unfoldable pub run : MockSail → List Call → MockSail
run s [] = s
run s (c ∷ cs) = run (matmul_q4_k s c.a c.b c.out c.m c.k c.n).1 cs

-- Whether an operand of `rows` rows of `k` weights may have `size` bytes.
abbrev pub fits_q4 : (rows k size : ℕ) → Bool
fits_q4 rows k size =
    leb 1 k
    && (k % qk_k == 0)
    && (size == rows * (k / qk_k) * q4_k_block_bytes)
    && leb size word_max

abbrev pub accepted : Call → Bool
accepted c =
    fits_q4 c.m c.k (length c.a)
    && fits_q4 c.n c.k (length c.b)
    && leb (c.m * c.n * output_elem_bytes) word_max
    && leb (c.m * c.n * output_elem_bytes) (length c.out)

-- The traffic of a call, from its dimensions and the sizes of its buffers.
abbrev pub traffic : Call → List Transaction
traffic c = if accepted c then product_traffic c.m c.k c.n (length c.out) else []

unfoldable pub all_traffic : List Call → List Transaction
all_traffic [] = []
all_traffic (c ∷ cs) = traffic c ++ all_traffic cs

pub matmul_q4_k-traffic :
    (s : MockSail) (c : Call)
    → (matmul_q4_k s c.a c.b c.out c.m c.k c.n).1 ≡ record { txns = s.txns ++ traffic c }
matmul_q4_k-traffic s c =
    ground (arith, append-nil s.txns, matmul_q4_k-cases s c.a c.b c.out c.m c.k c.n)

-- After any sequence of calls, failed ones among them, the recorded transactions are those from
-- before, followed by the traffic of each call in order: nothing is dropped, added or reordered.
pub transactions-run :
    (s : MockSail) (cs : List Call) → transactions (run s cs) ≡ transactions s ++ all_traffic cs
unfolding transactions run all_traffic
transactions-run s [] = sym (append-nil s.txns)
transactions-run s (c ∷ cs) =
    transactions-run (matmul_q4_k s c.a c.b c.out c.m c.k c.n).1 cs
    ∙ rw matmul_q4_k-traffic (append_assoc s.txns (traffic c) (all_traffic cs))
