-- ===== src/Scheduler/Failure.antt =====
-- src/scheduler/src/lib.rs: the crate's error type and its texts.
use spanker.Common.{ℕ, String, List, [], ◌∷◌, written, decimal}
pub mod Messages
use spanker.Runtime.Control
use spanker.Runtime.Control.{ErrnoTexts}

pub data Error : Type 0 where
  no_sails : Error
  -- expected and actual number of sails
  topology_mismatch : ℕ → ℕ → Error
  -- the sail, expected and actual number of elements
  shape_mismatch : ℕ → ℕ → ℕ → Error
  not_implemented : String → Error
  runtime : Control.Error → Error

-- The `Display` of the error type.
unfoldable pub display : ErrnoTexts → Error → String
unfolding decimal Control.display
display texts no_sails =
    "no Sails enumerated; spanker.ko may not be loaded or no devices probed yet"
display texts (topology_mismatch expected actual) =
    written
      ("topology mismatch: expected " ∷ decimal expected ∷ " sails, got " ∷ decimal actual ∷ [])
display texts (shape_mismatch sail expected actual) = written (
    "buffer shape mismatch on sail "
    ∷ decimal sail
    ∷ ": expected "
    ∷ decimal expected
    ∷ " elems, got "
    ∷ decimal actual
    ∷ [])
display texts (not_implemented what) = written ("not implemented yet: " ∷ what ∷ [])
display texts (runtime e) = Control.display texts e
