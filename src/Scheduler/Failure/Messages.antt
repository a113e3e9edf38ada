-- ===== src/Scheduler/Failure/Messages.antt =====
-- src/scheduler/src/lib.rs: what the texts of the crate's errors say.
use spanker.Common.{
  ℕ, ◌≡◌, refl, ap, ◌∙◌, List, [], ◌∷◌, numbers, numbers-text, numbers-decimal,
  numbers-decimal_text,
}
use spanker.Runtime.Control.{ErrnoTexts}
use spanker.Scheduler.Failure.{topology_mismatch, shape_mismatch, display}

-- Read back from the text, the numbers of the mismatches are those of the error.
pub numbers-topology_mismatch :
    (texts : ErrnoTexts) (expected actual : ℕ)
    → numbers (display texts (topology_mismatch expected actual)) ≡ expected ∷ actual ∷ []
unfolding display
numbers-topology_mismatch texts expected actual =
    numbers-text "topology mismatch: expected " _ refl
    ∙ numbers-decimal_text expected " sails, got " _ refl refl refl
    ∙ ap (λ (r : List ℕ). expected ∷ r) (numbers-decimal actual)

pub numbers-shape_mismatch :
    (texts : ErrnoTexts) (sail expected actual : ℕ)
    → numbers (display texts (shape_mismatch sail expected actual)) ≡ sail ∷ expected ∷ actual ∷ []
unfolding display
numbers-shape_mismatch texts sail expected actual =
    numbers-text "buffer shape mismatch on sail " _ refl
    ∙ numbers-decimal_text sail ": expected " _ refl refl refl
    ∙ ap (λ (r : List ℕ). sail ∷ r)
        (numbers-decimal_text expected " elems, got " _ refl refl refl
          ∙ ap (λ (r : List ℕ). expected ∷ r) (numbers-decimal actual))
