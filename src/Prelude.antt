-- ===== src/Prelude.antt =====
-- The names that every component shares: the libraries' names, passed on, and those of the
-- children: tests on numbers, lists measured by native numbers, Go strings, and results.
mod Tests
mod Lists
mod Slices
mod Perms
mod Equality
mod Results
mod Int
pub use Tests.*
pub use Lists.*
pub use Slices.*
pub use Perms.*
pub use Results.*
pub use Int.*
unfoldable pub use Equality.{Text, codes, text_eq}
pub use Equality.{text_eq_iff, text_eq_refl, text_eq_sym, text_eq_ne}
pub use Prim.Native.Nat.{ℕ, zero, suc, ◌+◌, ◌-◌, ◌*◌, ◌/◌, ◌%◌, ◌^◌, ◌≤◌, ◌<◌, min}
pub use mathlib.Core.Path.{◌≡◌, refl, sym, ap, ap₂, ◌∙◌}
pub use mathlib.Core.Logic.{◌≢◌, ◌↔◌, ◌⊎◌, inl, inr}
pub use mathlib.Core.Bool.{Bool, true, false, not, ◌&&◌, ◌||◌}
pub use mathlib.Core.Option.{Option, none, some}
pub use mathlib.Core.List.{List, [], ◌∷◌, ◌++◌, map, append-nil, append_assoc}
pub use native.Mathlib.Omega.{arith}
