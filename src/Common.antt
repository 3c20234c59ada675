-- ===== src/Common.antt =====
-- What the other modules share: names of the libraries, passed on, tests on numbers, and lists.
mod Tests
mod Lists
mod Texts
pub mod Int
pub mod Tables
pub mod Flatten
pub mod Dict
pub use Tests.*
pub use Lists.*
pub use Texts.{codes, bytes_eq, bytes_eq→eq, bytes_eq_refl}
unfoldable pub use Texts.{lower_byte, to_ascii_lowercase}
pub use Prim.Native.Nat.{ℕ, zero, suc, ◌+◌, ◌-◌, ◌*◌, ◌/◌, ◌%◌, ◌^◌, ◌≤◌, ◌<◌, min, max}
pub use Prim.Native.Nat.{bit_and, bit_or}
pub use Prim.Native.String.{String}
pub use mathlib.Core.Path.{◌≡◌, refl, sym, ap, ap₂, subst, ◌∙◌}
pub use mathlib.Core.Logic.{◌≢◌, ◌↔◌, ◌⊎◌, inl, inr}
pub use mathlib.Core.Bool.{Bool, true, false, not, ◌&&◌, ◌||◌}
pub use mathlib.Core.Option.{Option, none, some}
pub use mathlib.Core.List.{List, [], ◌∷◌, ◌++◌, map, append-nil, append_assoc}
pub use native.Mathlib.Omega.{arith}
