-- ===== src/Prelude.antt =====
-- The names that the modules share: the libraries', passed on, and those of the children.
mod Tests
mod Strings
mod Lists
mod Int
mod Maps
mod Sort
mod Results
mod Bytes
mod Spaces
pub mod Steps
pub use Tests.*
unfoldable pub use Strings.*
unfoldable pub use Lists.*
unfoldable pub use Int.*
unfoldable pub use Maps.*
unfoldable pub use Sort.*
unfoldable pub use Results.*
unfoldable pub use Bytes.*
unfoldable pub use Spaces.*
pub use Prim.Native.Nat.{ℕ, zero, suc, ◌+◌, ◌-◌, ◌*◌, ◌/◌, ◌%◌, ◌^◌, ◌≤◌, ◌<◌}
pub use Prim.Native.String.{String}
pub use mathlib.Core.Path.{◌≡◌, refl, sym, ap, ap₂, subst, ◌∙◌}
pub use mathlib.Core.Logic.{◌≢◌, ◌↔◌, ◌⊎◌, inl, inr}
pub use mathlib.Core.Bool.{Bool, true, false, not, ◌&&◌, ◌||◌}
pub use mathlib.Core.Option.{Option, none, some}
pub use mathlib.Core.List.{List, [], ◌∷◌, ◌++◌, map}
pub use native.Mathlib.Omega.{arith}
