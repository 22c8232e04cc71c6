-- ===== src/Base.antt =====
-- The names that every module shares: numbers, tests, lists, options, results, and the models of
-- the Rust standard library's strings and ordered maps.
mod Tests
mod Lists
mod Results
pub mod Text
pub mod Order
pub mod OrdMap
pub mod Ring
pub mod Decimal
pub mod Bytes
pub mod Integers
pub mod Distinct
pub mod Blank
pub mod Encoding
pub mod Sealing
pub use Tests.*
pub use Lists.*
pub use Results.*
pub use Prim.Native.Nat.{ℕ, zero, suc, ◌+◌, ◌-◌, ◌*◌, ◌/◌, ◌%◌, ◌^◌, ◌≤◌, ◌<◌, min, max}
pub use mathlib.Core.Path.{◌≡◌, refl, sym, ap, subst, ◌∙◌}
pub use mathlib.Core.Logic.{◌≢◌, ◌↔◌, ◌⊎◌, inl, inr}
pub use mathlib.Core.Bool.{Bool, true, false, not, ◌&&◌, ◌||◌}
pub use mathlib.Core.Option.{Option, none, some}
pub use mathlib.Core.List.{List, [], ◌∷◌, ◌++◌, map}
pub use native.Mathlib.Omega.{arith}
unfoldable pub use native.Mathlib.Decide.{dec_lt, dec_le, ℕ_discrete}
