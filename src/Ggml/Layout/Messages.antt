-- ===== src/Ggml/Layout/Messages.antt =====
-- src/backends/ggml/src/lib.rs: what the texts of the crate's errors say.
use spanker.Common.{
  ℕ, ◌≡◌, refl, ap, ◌∙◌, List, [], ◌∷◌, numbers, numbers-text, numbers-decimal,
  numbers-decimal_text, numbers-decimal_then,
}
use spanker.Runtime.Control.{ErrnoTexts}
use spanker.Ggml.Layout.{bad_dims, output_too_small, display}

consistent : numbers " == 0 and slice lens consistent" ≡ 0 ∷ []
unfolding numbers
consistent = refl

-- Read back from the text, the numbers are those of the error, and the zero of the rule on `k`.
pub numbers-bad_dims :
    (texts : ErrnoTexts) (m k n qk : ℕ)
    → numbers (display texts (bad_dims m k n qk)) ≡ m ∷ k ∷ n ∷ qk ∷ 0 ∷ []
unfolding display
numbers-bad_dims texts m k n qk =
    numbers-text "bad dims: m=" _ refl
    ∙ numbers-decimal_text m " k=" _ refl refl refl
    ∙ ap (λ (r : List ℕ). m ∷ r)
        (numbers-decimal_text k " n=" _ refl refl refl
          ∙ ap (λ (r : List ℕ). k ∷ r)
              (numbers-decimal_text n "; require k % " _ refl refl refl
                ∙ ap (λ (r : List ℕ). n ∷ r)
                    (numbers-decimal_then qk " == 0 and slice lens consistent" refl refl
                      ∙ ap (λ (r : List ℕ). qk ∷ r) consistent)))

pub numbers-output_too_small :
    (texts : ErrnoTexts) (have need : ℕ)
    → numbers (display texts (output_too_small have need)) ≡ have ∷ need ∷ []
unfolding display
numbers-output_too_small texts have need =
    numbers-text "output buffer too small: have " _ refl
    ∙ numbers-decimal_text have " bytes, need " _ refl refl refl
    ∙ ap (λ (r : List ℕ). have ∷ r) (numbers-decimal need)
