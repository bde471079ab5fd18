-- ===== src/Base.antt =====
-- Names that every other file shares: the libraries', passed on, and those of the children:
-- Boolean tests, lists over the native numbers, results of fallible Go functions, and bytes.
mod Tests
mod Lists
mod Results
mod ByteStrings
mod Encoding
mod Maps
pub use Tests.*
pub use Lists.*
unfoldable pub use Results.*
unfoldable pub use ByteStrings.*
unfoldable pub use Encoding.*
unfoldable pub use Maps.*
pub use Prim.Native.Nat.{ℕ, zero, suc, ◌+◌, ◌-◌, ◌*◌, ◌/◌, ◌%◌, ◌^◌, ◌≤◌, ◌<◌}
pub use mathlib.Core.Path.{◌≡◌, refl, sym, ap, ◌∙◌, subst}
pub use mathlib.Core.Logic.{◌≢◌, ◌↔◌, ◌⊎◌, inl, inr}
pub use mathlib.Core.Bool.{Bool, true, false, ◌&&◌, ◌||◌, not}
pub use mathlib.Core.Option.{Option, none, some}
pub use mathlib.Core.List.{List, [], ◌∷◌, ◌++◌, map}
pub use native.Mathlib.Omega.{arith}
