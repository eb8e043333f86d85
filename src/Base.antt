-- ===== src/Base.antt =====
-- The names that the other modules share: the libraries', passed on, and those of six children.
-- `Text` writes out the functions of Go's package strings that the source calls.
mod Tests
mod Lists
mod Append
mod Text
mod Outcome
mod Ext
pub use Tests.*
pub use Lists.*
pub use Append.*
unfoldable pub use Text.*
unfoldable pub use Ext.*
pub use Outcome.*
pub use Prim.Native.Nat.{ℕ, zero, suc, ◌+◌, ◌-◌, ◌*◌, ◌≤◌, ◌<◌}
pub use mathlib.Core.Path.{◌≡◌, refl, sym, ap, ◌∙◌}
pub use mathlib.Core.Logic.{◌≢◌, ◌↔◌, ◌⊎◌, inl, inr}
pub use mathlib.Core.Bool.{Bool, true, false, not, ◌&&◌, ◌||◌}
pub use mathlib.Core.Option.{Option, none, some}
pub use mathlib.Core.List.{List, [], ◌∷◌, ◌++◌, map, append-nil, append_assoc}
pub use native.Mathlib.Omega.{arith}
