-- ===== src/Base.antt =====
-- The names that the other modules share: those of the libraries, passed on, and of the children
-- (tests and the conditional, lists, Go strings, results).
mod Tests
mod Lists
mod Strings
mod Errors
mod Split
mod Int
mod Number
mod Calls
pub use Tests.*
pub use Lists.*
unfoldable pub use Strings.*
pub use Errors.*
unfoldable pub use Split.*
unfoldable pub use Int.*
unfoldable pub use Number.*
unfoldable pub use Calls.*
pub use Prim.Native.Nat.{ℕ, zero, suc, ◌+◌, ◌-◌, ◌*◌, ◌/◌, ◌%◌, ◌^◌, ◌≤◌, ◌<◌}
pub use Prim.Native.String.{String}
pub use mathlib.Core.Path.{◌≡◌, refl, sym, ap, ap₂, ◌∙◌}
pub use mathlib.Core.Logic.{◌≢◌, ◌↔◌, ◌⊎◌, inl, inr}
pub use mathlib.Core.Bool.{Bool, true, false, not, ◌&&◌, ◌||◌}
pub use mathlib.Core.Option.{Option, none, some, some-injective}
pub use mathlib.Core.List.{List, [], ◌∷◌, ◌++◌, map, append-nil, append_assoc}
pub use native.Mathlib.Omega.{arith}
