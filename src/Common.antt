-- ===== src/Common.antt =====
-- What the models share: library names passed on, Boolean tests, lists measured by native numbers,
-- machine words, and results.
mod Tests
mod Lists
mod Word
mod Fallible
mod Int
mod Decimal
mod Message
pub use Tests.*
pub use Lists.*
unfoldable pub use Word.*
pub use Fallible.*
pub use Int.*
unfoldable pub use Decimal.*
unfoldable pub use Message.*
pub use Prim.Native.Nat.{ℕ, zero, suc, ◌+◌, ◌-◌, ◌*◌, ◌/◌, ◌%◌, ◌^◌, ◌≤◌, ◌<◌}
pub use Prim.Native.String.{String}
pub use mathlib.Core.Path.{◌≡◌, refl, sym, ap, ap₂, ◌∙◌}
pub use mathlib.Core.Logic.{◌≢◌, ◌↔◌, ◌⊎◌, inl, inr}
pub use mathlib.Core.Bool.{Bool, true, false, not, ◌&&◌, ◌||◌}
pub use mathlib.Core.Option.{Option, none, some}
pub use mathlib.Core.List.{List, [], ◌∷◌, ◌++◌, map, append_assoc, append-nil}
pub use native.Mathlib.Omega.{arith}
