-- ===== src/Base.antt =====
-- Names shared by every module: the libraries' names passed on, Boolean tests, lists measured by
-- native numbers, the Option monad (where `none` stands for a panic or for Rust's `None`),
-- and 32- and 64-bit words.
mod Tests
mod Lists
mod Slices
mod Words
mod Fallible
pub mod Bits
pub mod Assoc
pub use Tests.*
pub use Lists.*
pub use Slices.*
pub use Words.*
pub use Fallible.*
pub use Prim.Native.Nat.{ℕ, zero, suc, ◌+◌, ◌-◌, ◌*◌, ◌/◌, ◌%◌, ◌^◌, ◌≤◌, ◌<◌, min, max}
pub use mathlib.Core.Path.{◌≡◌, refl, sym, ap, ap₂, ◌∙◌, subst}
pub use mathlib.Core.Logic.{◌≢◌, ◌↔◌, ◌⊎◌, inl, inr}
pub use mathlib.Core.Bool.{Bool, true, false, not, ◌&&◌, ◌||◌}
pub use mathlib.Core.Option.{Option, none, some}
pub use mathlib.Core.List.{List, [], ◌∷◌, ◌++◌, map}
pub use native.Mathlib.Omega.{arith}
unfoldable pub use native.Mathlib.Decide.{dec_lt, dec_le, ℕ_discrete}
