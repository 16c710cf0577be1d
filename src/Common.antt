-- ===== src/Common.antt =====
-- The names that the other modules share: the libraries', passed on, and those of two children.
mod Tests
mod Table
mod Sort
mod Split
pub use Tests.*
unfoldable pub use Table.{select, first, sum_by, find, replace}
pub use Table.{
  length, length-map, sum_by-append, first-append_none, first-append_some, first_sound, find_key,
  first-replace, replace-replace, find-le-sum_by, find-replace_self, find-replace_ne,
  sum_by-replace, find-append_none, find-append_some,
}
unfoldable pub use Split.{split_on, none_of}
pub use Split.{none_of-append, split_on-plain, split_on-separator}
unfoldable pub use Sort.{insert_sorted, sort}
pub use Sort.{sum_by-sort, length-sort, ascending, descending}
pub use Prim.Native.Nat.{ℕ, zero, suc, ◌+◌, ◌-◌, ◌*◌, ◌/◌, ◌%◌, ◌^◌, ◌≤◌, ◌<◌}
pub use Prim.Native.String.{String}
pub use mathlib.Core.Path.{◌≡◌, refl, sym, ap, ◌∙◌, subst}
pub use mathlib.Core.Logic.{◌≢◌, ◌↔◌, ◌⊎◌, inl, inr}
pub use mathlib.Core.Bool.{Bool, true, false, not, ◌&&◌, ◌||◌}
pub use mathlib.Core.Option.{Option, none, some}
pub use mathlib.Core.List.{List, [], ◌∷◌, ◌++◌, map}
pub use native.Mathlib.Omega.{arith}
unfoldable pub use text.Mathlib.Text.{◌==◌ as str_eq}
pub use text.Mathlib.TextEquality.{eq_iff}

abbrev pub ⊤ : Type 0
⊤ = Unit {0}
