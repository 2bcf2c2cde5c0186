-- ===== src/Prelude.antt =====
-- The names that the other modules share: the libraries' names, passed on, and those of the
-- children (tests and the conditional, lists, texts).
mod Tests
mod Lists
mod Bytes
mod Scan
mod Integers
mod Errors
mod Sort
mod Maps
unfoldable pub use Tests.*
unfoldable pub use Lists.*
unfoldable pub use Bytes.*
unfoldable pub use Scan.*
pub use Integers.*
pub use Errors.*
unfoldable pub use Sort.*
unfoldable pub use Maps.*
pub use Prim.Native.Nat.{ℕ, zero, suc, ◌+◌, ◌-◌, ◌*◌, ◌/◌, ◌%◌, ◌^◌, ◌≤◌, ◌<◌, min}
pub use mathlib.Core.Path.{◌≡◌, refl, sym, ap, ◌∙◌, subst}
pub use mathlib.Core.Logic.{◌≢◌, ◌↔◌, ◌⊎◌, inl, inr}
pub use mathlib.Core.Bool.{Bool, true, false, ◌&&◌, ◌||◌, not}
pub use mathlib.Core.Option.{Option, none, some}
pub use mathlib.Core.List.{List, [], ◌∷◌, ◌++◌, map}
pub use native.Mathlib.Omega.{arith}
