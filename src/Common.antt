-- ===== src/Common.antt =====
-- The names that the other modules share: the libraries', passed on, and those of its children.
mod Tests
mod Words
mod Lists
mod SortedMap
mod Text
mod Decimal
mod Int
mod Results
mod Utf8
pub use Tests.*
unfoldable pub use Words.*
pub use Lists.*
unfoldable pub use SortedMap.*
pub use Text.*
unfoldable pub use Decimal.*
pub use Int.*
pub use Results.*
unfoldable pub use Utf8.*
pub use Prim.Native.String.{String}
pub use Prim.Native.Char.{code as char_code}
unfoldable pub use text.Mathlib.Text.{◌==◌ as str_eq}
pub use Prim.Native.Nat.{ℕ, zero, suc, ◌+◌, ◌-◌, ◌*◌, ◌/◌, ◌%◌, ◌^◌, ◌≤◌, ◌<◌, min, max}
pub use mathlib.Core.Path.{◌≡◌, refl, sym, ap, ◌∙◌, subst}
pub use mathlib.Core.Logic.{◌≢◌, ◌↔◌, ◌⊎◌, inl, inr}
pub use mathlib.Core.Bool.{Bool, true, false, not, ◌&&◌, ◌||◌}
pub use mathlib.Core.Option.{Option, none, some}
pub use mathlib.Core.List.{List, [], ◌∷◌, ◌++◌, map, append-nil, append_assoc}
pub use native.Mathlib.Omega.{arith}
unfoldable pub use native.Mathlib.Decide.{dec_le, dec_lt, ℕ_discrete}
