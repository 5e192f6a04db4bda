-- ===== src/Common.antt =====
-- Names, tests, lists, integers, text, dictionaries and the exception monad that every part uses.
-- Python's built-in types and statements that the plugin relies on stand here.
mod Tests
mod Lists
mod Sets
mod Int
mod Strings
mod Dictionary
mod Calls
mod Json
mod Entries
pub use Tests.*
pub use Lists.*
pub use Sets.*
unfoldable pub use Int.*
unfoldable pub use Strings.*
unfoldable pub use Dictionary.*
unfoldable pub use Calls.*
unfoldable pub use Json.*
unfoldable pub use Entries.*
pub use Prim.Native.Nat.{ℕ, zero, suc, ◌+◌, ◌-◌, ◌*◌, ◌/◌, ◌%◌, ◌≤◌, ◌<◌}
pub use Prim.Native.String.{String}
pub use mathlib.Core.Path.{◌≡◌, refl, sym, ap, ◌∙◌, subst}
pub use mathlib.Core.Logic.{◌≢◌, ◌↔◌, ◌⊎◌, inl, inr}
pub use mathlib.Core.Bool.{Bool, true, false, ◌&&◌, ◌||◌, not}
pub use mathlib.Core.Option.{Option, none, some}
pub use mathlib.Core.List.{List, [], ◌∷◌, ◌++◌, map}
pub use mathlib.Core.List.{append-nil, append_assoc}
pub use native.Mathlib.Omega.{arith}
pub use text.Mathlib.Text.{◌==◌ as str_eq}
pub use text.Mathlib.TextEquality.{eq_iff}
