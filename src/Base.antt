-- ===== src/Base.antt =====
-- The names that the other modules share: those of the libraries, and those of children.
mod Tests
mod Lists
mod Text
mod Int
mod Dicts
mod Sets
pub mod Effects
pub mod Words
pub use Tests.*
unfoldable pub use Tests.{contains}
pub use Lists.*
pub use Text.*
pub use Int.*
pub use Dicts.*
pub use Sets.*
unfoldable pub use Sets.{set_add, sorted, codes_le}
unfoldable pub use Dicts.{lookup, insert, remove}
unfoldable pub use Text.{
  lower, to_lower, is_prefix, is_infix, decimal, backwards, reverse_text, skip_spaces, strip, clip,
  push_first, split_commas,
}
pub use Prim.Native.Nat.{ℕ, zero, suc, ◌+◌, ◌-◌, ◌*◌, ◌/◌, ◌%◌, ◌^◌, ◌≤◌, ◌<◌, min, max}
pub use Prim.Native.String.{String}
pub use text.Mathlib.Text.{◌==◌}
pub use text.Mathlib.TextEquality.{eq_iff}
pub use text.Mathlib.TextPositions.{eq_refl}
pub use mathlib.Core.Path.{◌≡◌, refl, sym, ap, ◌∙◌}
pub use mathlib.Core.Logic.{◌≢◌, ◌⊎◌, inl, inr}
pub use mathlib.Core.Bool.{Bool, true, false, not, ◌&&◌, ◌||◌}
pub use mathlib.Core.Option.{Option, none, some}
pub use mathlib.Core.List.{List, [], ◌∷◌, ◌++◌, map}
pub use native.Mathlib.Omega.{arith}
