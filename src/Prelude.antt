-- ===== src/Prelude.antt =====
-- The names that the other modules share: the libraries', passed on, and the program's own helpers
-- on tests, lists and texts.
mod Tests
mod Lists
mod Texts
mod Numbers
mod Maps
mod Splits
pub use Tests.*
pub use Lists.*
pub use Texts.*
unfoldable pub use Maps.{insert, erase_if, merge}
pub use Maps.*
pub use Splits.*
unfoldable pub use Numbers.{decimal, decimal_from}
pub use Numbers.*
pub use Prim.Native.Nat.{ℕ, zero, suc, ◌+◌, ◌-◌, ◌*◌, ◌/◌, ◌%◌, ◌≤◌, ◌<◌, min, max}
pub use mathlib.Core.Path.{◌≡◌, refl, sym, ap, ◌∙◌, subst}
pub use mathlib.Core.Logic.{◌≢◌, ◌↔◌, ◌⊎◌, inl, inr}
pub use mathlib.Core.Bool.{Bool, true, false, not, ◌&&◌, ◌||◌}
pub use mathlib.Core.Option.{Option, none, some}
pub use mathlib.Core.List.{List, [], ◌∷◌, ◌++◌, map, append_assoc, append-nil}
pub use native.Mathlib.Omega.{arith}
