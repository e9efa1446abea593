-- ===== src/Common.antt =====
-- The names that the other modules share: the libraries', passed on, and those of the children.
mod Tests
mod Strings
mod Lists
mod Results
mod Equality
mod Decimals
mod Calendar
mod Keyed
mod Updating
mod Searching
mod Trimming
pub use Tests.*
pub use Strings.*
unfoldable pub use Strings.{
  is_space, text_eq, to_lower_case, trim, split, includes, collapse_runs, join,
}
pub use Lists.*
pub use Results.*
unfoldable pub use Results.{throw_if}
pub use Equality.*
pub use Calendar.*
pub use Keyed.*
pub use Updating.*
pub use Searching.*
pub use Trimming.*
unfoldable pub use Searching.{starts_with, ends_with, without, cut}
unfoldable pub use Updating.{update_where}
unfoldable pub use Keyed.{insert_by, sort_by}
unfoldable pub use Decimals.{decimal, number, number_from}
pub use Decimals.*
unfoldable pub use Calendar.{year_month, civil_from_days, civil_from_march, march_from_month}
pub use Prim.Native.Nat.{ℕ, zero, suc, ◌+◌, ◌-◌, ◌*◌, ◌/◌, ◌%◌, ◌^◌, ◌≤◌, ◌<◌, min, max}
pub use mathlib.Core.Path.{◌≡◌, refl, sym, ap, subst, ◌∙◌}
pub use mathlib.Core.Logic.{◌≢◌, ◌↔◌, ◌⊎◌, inl, inr}
pub use mathlib.Core.Bool.{Bool, true, false, not, ◌&&◌, ◌||◌}
pub use mathlib.Core.Option.{Option, none, some}
pub use mathlib.Core.List.{
  List, [], ◌∷◌, ◌++◌, map, foldl, reverse, append-nil, append_assoc, reverse-cons, reverse-append,
}
pub use native.Mathlib.Omega.{arith}
