-- ===== src/Common.antt =====
-- The names that the other modules share: the libraries' passed on, tests on native numbers,
-- lists, bytes, results and dictionaries. Nothing here stands for code of the program.
mod Tests
mod Lists
pub mod Int
pub mod Bytes
pub mod Exec
pub mod Dict
pub mod Checked
pub mod Reordering
pub mod Sets
pub mod Sorting
pub mod Table
pub mod TextOrder
pub use Tests.*
unfoldable pub use Lists.*
pub use Prim.Native.Nat.{ℕ, zero, suc, ◌+◌, ◌-◌, ◌*◌, ◌/◌, ◌%◌, ◌^◌, ◌≤◌, ◌<◌}
pub use Prim.Native.String.{String}
pub use mathlib.Core.Path.{◌≡◌, refl, sym, ap, ◌∙◌, subst}
pub use mathlib.Core.Logic.{◌≢◌, ◌↔◌, ◌⊎◌, inl, inr}
pub use mathlib.Core.Bool.{Bool, true, false, not, ◌&&◌, ◌||◌}
pub use mathlib.Core.Option.{Option, none, some}
pub use mathlib.Core.List.{List, [], ◌∷◌, ◌++◌, map, append-nil, append_assoc}
pub use native.Mathlib.Omega.{arith}
