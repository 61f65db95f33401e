-- ===== src/Prelude.antt =====
-- The names that the other modules share: those of the libraries, and those of the children.
mod Tests
mod Lists
mod Texts
mod Decimal
mod Words
mod Maps
mod Order
mod Sorted
mod Registry
pub use Tests.*
pub use Lists.*
pub use Words.*
pub use Order.*
pub use Sorted.{
  Above, IsSorted, AtLeast, Above-trans, from_key-AtLeast, from_key-IsSorted,
  values_within-from_key, values_within-Above, values_within_single, find-Above, find_past,
  find-from_key, All-find, All-from_key, find_low, values_within_empty,
}
unfoldable pub use Sorted.{from_key, values_within}
pub use Prim.Native.Nat.{ℕ, zero, suc, ◌+◌, ◌-◌, ◌*◌, ◌/◌, ◌%◌, ◌^◌, ◌≤◌, ◌<◌}
pub use mathlib.Core.Path.{◌≡◌, refl, sym, ap, ◌∙◌}
pub use mathlib.Core.Logic.{◌≢◌, ◌↔◌, ◌⊎◌, inl, inr}
pub use mathlib.Core.Bool.{Bool, true, false, not, ◌&&◌, ◌||◌}
pub use mathlib.Core.Option.{Option, none, some}
pub use mathlib.Core.List.{List, [], ◌∷◌, ◌++◌, map}
pub use native.Mathlib.Omega.{arith}
pub use Texts.{Text, lit, text_eq_iff, text_eq_refl}
unfoldable pub use Texts.{text_eq, text_ltb}
pub use Maps.{
  QMap, AllValues, AllValues-modify, AllValues-insert, AllValues-find, AllValues-replace,
  AllValues-middle, AllValues-mono, find-replace, total-append, contains-modify, contains,
  Mapped-cases, find-insert, find-modify, find-remove, total-insert, total-modify,
}
unfoldable pub use Maps.{find, insert, modify, remove, total}
pub use Registry.{insert-IsSorted, remove-IsSorted, total-remove, AllValues-remove}
unfoldable pub use Decimal.{digits, format_d}
