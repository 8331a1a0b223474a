-- ===== src/Base.antt =====
-- The names that the other modules share: the libraries', passed on, and those of the children.
mod Tests
mod Lists
mod Calls
mod Numbers
mod Text
mod Whole
mod Dict
pub use Tests.*
pub use Lists.*
pub use Calls.*
pub use Numbers.*
pub use Whole.{whole}
pub use Dict.{
  IsDistinct, keys, contains-append, contains-to_set, to_set-IsDistinct, append-IsDistinct,
  count_if-except, get-put, get-remove, contains-keys, has-some, put-IsDistinct, remove-IsDistinct,
}
unfoldable pub use Dict.{contains, to_set, get, has, put, remove}
pub use text.Mathlib.TextEquality.{eq_iff}
unfoldable pub use text.Mathlib.Text.{◌==◌ as str_eq}
pub use Text.{is_empty, strip-strip}
unfoldable pub use Text.{strip, str}
pub use Prim.Native.Nat.{ℕ, zero, suc, ◌+◌, ◌-◌, ◌*◌, ◌/◌, ◌%◌, ◌^◌, ◌≤◌, ◌<◌, min, max}
pub use Prim.Native.String.{String}
pub use mathlib.Core.Path.{◌≡◌, refl, sym, ap, ◌∙◌}
pub use mathlib.Core.Logic.{◌≢◌, ◌↔◌, ◌⊎◌, inl, inr}
pub use mathlib.Core.Bool.{Bool, true, false, not, ◌&&◌, ◌||◌}
pub use mathlib.Core.Option.{Option, none, some}
pub use mathlib.Core.List.{List, [], ◌∷◌, ◌++◌, map}
pub use native.Mathlib.Omega.{arith}
