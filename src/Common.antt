-- ===== src/Common.antt =====
-- The names that the other modules share: the libraries', passed on, and those of the children.
mod Tests
mod Lists
mod Text
mod TextLaws
mod Results
mod Int
mod Keys
mod Chars
mod Order
mod Words
mod Bytes
mod OrderLaws
mod SortLaws
mod FindLaws
pub use Tests.*
pub use Lists.*
unfoldable pub use Text.*
pub use TextLaws.*
pub use Results.*
pub use Int.*
pub use Keys.*
unfoldable pub use Chars.*
unfoldable pub use Order.*
unfoldable pub use Words.*
unfoldable pub use Bytes.*
pub use OrderLaws.*
pub use SortLaws.*
pub use FindLaws.*
pub use Prim.Native.Nat.{ℕ, zero, suc, ◌+◌, ◌-◌, ◌*◌, ◌/◌, ◌%◌, ◌≤◌, ◌<◌}
pub use Prim.Native.Char.{Char, code}
pub use Prim.Native.String.{String}
pub use mathlib.Core.Path.{◌≡◌, refl, sym, ap, ap₂, ◌∙◌}
pub use mathlib.Core.Logic.{◌≢◌, ◌↔◌, ◌⊎◌, inl, inr}
pub use mathlib.Core.Bool.{Bool, true, false, not, ◌&&◌, ◌||◌}
pub use mathlib.Core.Option.{Option, none, some}
pub use mathlib.Core.List.{List, [], ◌∷◌, ◌++◌, map}
pub use native.Mathlib.Omega.{arith}
pub use text.Mathlib.Text.{◌==◌}
pub use text.Mathlib.TextEquality.{eq_iff}
pub use text.Mathlib.TextPositions.{eq_refl}
