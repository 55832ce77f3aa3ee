-- ===== src/Prelude.antt =====
-- The names that the other modules share: the libraries', passed on, tests on the native numbers,
-- lists indexed by them, binary search, dicts with integer keys, signed integers, decimal text, texts, and
-- results that may be errors.
pub mod Tests
pub mod Lists
pub mod Int
pub mod Results
pub mod Bisect
pub mod Decimal
pub mod Dict
pub mod Texts
unfoldable pub use Results.*
unfoldable pub use Dict.*
unfoldable pub use Texts.*
unfoldable pub use Bisect.*
unfoldable pub use Decimal.*
pub use Tests.*
pub use Lists.*
unfoldable pub use Int.*
pub use Prim.Native.Nat.{ℕ, zero, suc, ◌+◌, ◌-◌, ◌*◌, ◌/◌, ◌%◌, ◌^◌, ◌≤◌, ◌<◌}
pub use mathlib.Core.Path.{◌≡◌, refl, sym, ap, ◌∙◌, subst}
pub use mathlib.Core.Logic.{◌≢◌, ◌↔◌, ◌⊎◌, inl, inr}
pub use mathlib.Core.Bool.{Bool, true, false, ◌&&◌, ◌||◌, not}
pub use mathlib.Core.Option.{Option, none, some}
pub use mathlib.Core.List.{List, [], ◌∷◌, ◌++◌, map, reverse, append_assoc, append-nil}
pub use native.Mathlib.Omega.{arith}
