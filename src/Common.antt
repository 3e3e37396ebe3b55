-- ===== src/Common.antt =====
-- The names that the other modules share: the libraries', passed on, and those of the children,
-- on Boolean tests, texts, lists, maps and versions.
mod Tests
mod Text
mod Lists
mod Maps
mod Utf8
mod Clock
mod Decimal
mod Sort
mod Versions
pub use Tests.*
pub use Lists.*
unfoldable pub use Lists.{keep}
pub use Versions.{
  Version, version_ltb_irrefl, version_ltb_asym, version_ltb_total, version_ltb_trans,
  version_ltb-false_trans,
}
unfoldable pub use Versions.{version_ltb}
pub use Clock.*
unfoldable pub use Decimal.{decimal}
unfoldable pub use Sort.{place, sort}
pub use Sort.{Above, Sorted, WeakOrder, sort-Sorted, sort-Perm}
unfoldable pub use Text.{str_ltb}
pub use Text.{str_ltb_irrefl, str_ltb_asym, str_ltb_total, str_ltb_trans}
unfoldable pub use Utf8.{to_valid_utf8, is_utf8, to_bytes}
pub use Utf8.{Bytes, to_valid_utf8_valid}
unfoldable pub use Maps.{lookup, insert, erase, lookup_in, insert_in}
pub use Maps.{
  Map, Unique, UniqueIn, or_empty, UniqueIn-keys, insert-UniqueIn, insert_in-UniqueIn,
  lookup_in-insert_in, lookup-insert, lookup-insert_self, lookup-insert_ne, lookup-erase,
  insert-Unique, length-insert, length-erase-le, erase-Unique,
}
pub use Prim.Native.Nat.{ℕ, zero, suc, ◌+◌, ◌-◌, ◌*◌, ◌/◌, ◌%◌, ◌^◌, ◌≤◌, ◌<◌}
pub use Prim.Native.String.{String, len, ◌++◌ as ◌⧺◌}
pub use mathlib.Core.Path.{◌≡◌, refl, sym, ap, subst, ◌∙◌}
pub use mathlib.Core.Logic.{◌≢◌, ◌↔◌, ◌⊎◌, inl, inr}
pub use mathlib.Core.Bool.{Bool, true, false, not, ◌&&◌, ◌||◌}
pub use mathlib.Core.Option.{Option, none, some}
pub use mathlib.Core.List.{List, [], ◌∷◌, ◌++◌, map, Perm}
pub use native.Mathlib.Omega.{arith}
unfoldable pub use native.Mathlib.Decide.{dec_lt, ℕ_discrete}
pub use text.Mathlib.Text.{◌==◌ as str_eq}
pub use text.Mathlib.TextEquality.{eq_iff}
