-- ===== src/Base.antt =====
-- The names that the other modules share: the libraries', passed on, and those of the children.
mod Tests
mod Lists
mod Regions
mod Int
mod Words
pub use Tests.*
pub use Lists.*
pub use Regions.*
pub use Int.*
pub use Words.{word_mod, i32_max, i64_max, add_word, sub_word, mul_word, not_word}
pub use Words.{checked_add, checked_mul, saturating_add, IsByte}
pub use Words.{
  length-le_bytes, le_bytes-IsByte, from_le-le_bytes, from_le-lt, from_le-zeros, le_bytes-from_le,
}
unfoldable pub use Words.{le_bytes, from_le}
pub use Prim.Native.Nat.{ℕ, zero, suc, ◌+◌, ◌-◌, ◌*◌, ◌/◌, ◌%◌, ◌^◌, ◌≤◌, ◌<◌, min, max}
pub use Prim.Native.String.{String}
pub use mathlib.Core.Path.{◌≡◌, refl, sym, ap, ap₂, ◌∙◌}
pub use mathlib.Core.Logic.{◌≢◌, ◌↔◌, ◌⊎◌, inl, inr}
pub use mathlib.Core.Bool.{Bool, true, false, not, ◌&&◌, ◌||◌}
pub use mathlib.Core.Option.{Option, none, some}
pub use mathlib.Core.List.{List, [], ◌∷◌, ◌++◌, map}
pub use native.Mathlib.Omega.{arith}
