-- ===== src/Base.antt =====
-- The names that the other modules share: the libraries', passed on, and those of the children.
mod Tests
mod Lists
mod Count
mod Eq
mod GoMap
mod Sort
mod Int
mod Ranges
pub use Tests.*
pub use Lists.*
pub use Count.*
pub use Eq.{Equality, ◌==◌, nat_eq, string_eq, ==_refl, ==_ne, ==→≡, contains}
pub use GoMap.*
pub use Sort.*
unfoldable pub use Sort.{text_leb, insert_sorted, sort_strings}
pub use Int.*
unfoldable pub use Int.{format_int}
pub use Ranges.*
unfoldable pub use Ranges.{range, range_keys}
pub use Prim.Native.Nat.{ℕ, zero, suc, ◌+◌, ◌-◌, ◌*◌, ◌/◌, ◌%◌, ◌^◌, ◌≤◌, ◌<◌, min, max}
pub use Prim.Native.String.{String}
pub use mathlib.Core.Path.{◌≡◌, refl, sym, ap, ◌∙◌, ◌≡⟨◌⟩◌, ◌∎}
pub use mathlib.Core.Logic.{◌≢◌, ◌↔◌, ◌⊎◌, inl, inr}
pub use mathlib.Core.Bool.{Bool, true, false, ◌&&◌, ◌||◌, not}
pub use mathlib.Core.Option.{Option, none, some}
pub use mathlib.Core.List.{List, [], ◌∷◌, ◌++◌, map, append-nil, append_assoc}
pub use native.Mathlib.Omega.{arith}
