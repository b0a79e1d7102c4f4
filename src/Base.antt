-- ===== src/Base.antt =====
-- The names that every component shares: the libraries', passed on, and those of the children below.
mod Tests
mod Texts
mod Lists
mod Select
mod Sort
mod Count
mod Dicts
mod Outcomes
mod Paging
pub use Tests.*
pub use Texts.*
unfoldable pub use Texts.{strip_start, strip_end}
pub use Lists.*
pub use Select.*
pub use Sort.*
pub use Count.*
pub use Dicts.*
pub use Outcomes.*
pub use Paging.*
pub use Prim.Native.Nat.{ℕ, zero, suc, ◌+◌, ◌-◌, ◌*◌, ◌/◌, ◌≤◌, ◌<◌, min}
pub use Prim.Native.String.{String}
pub use mathlib.Core.Path.{◌≡◌, refl, sym, ap, ◌∙◌}
pub use mathlib.Core.Logic.{◌≢◌, ◌↔◌, ◌⊎◌, inl, inr}
pub use mathlib.Core.Bool.{Bool, true, false, not, ◌&&◌, ◌||◌}
pub use mathlib.Core.Option.{Option, none, some}
pub use mathlib.Core.List.{List, [], ◌∷◌, ◌++◌, map, reverse, append-nil}
pub use native.Mathlib.Omega.{arith}
pub use text.Mathlib.Text.{◌==◌}
pub use text.Mathlib.TextEquality.{eq_iff}
pub use text.Mathlib.TextPositions.{eq_refl}
