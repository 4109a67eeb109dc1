-- ===== src/Common.antt =====
-- Names that every module shares: the libraries', passed on, Boolean tests, lists measured by
-- native numbers, bytes, and the exceptions of the C++ code as values.
mod Tests
mod Lists
mod ByteLists
pub mod Bits
pub mod Maps
pub mod Hex
pub mod Ints
mod Errors
pub use Tests.*
pub use Lists.*
pub use ByteLists.{Bytes, IsBytes, eq_of-bytes_eq, bytes_eq_refl}
unfoldable pub use ByteLists.{text, bytes_eq}
pub use Errors.*
pub use Prim.Native.Nat.{ℕ, zero, suc, ◌+◌, ◌-◌, ◌*◌, ◌/◌, ◌%◌, ◌^◌, ◌≤◌, ◌<◌, min}
pub use Prim.Native.String.{String}
pub use mathlib.Core.Path.{◌≡◌, refl, sym, ap, ◌∙◌, subst}
pub use mathlib.Core.Logic.{◌≢◌, ◌↔◌, ◌⊎◌, inl, inr}
pub use mathlib.Core.Bool.{Bool, true, false, not, ◌&&◌, ◌||◌}
pub use mathlib.Core.Option.{Option, none, some}
pub use mathlib.Core.List.{List, [], ◌∷◌, ◌++◌, map, append_assoc, append-nil}
pub use native.Mathlib.Omega.{arith}
