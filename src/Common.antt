-- ===== src/Common.antt =====
-- Names shared by every module: the libraries' own, passed on, Boolean tests, lists over the
-- native numbers and C strings as lists of bytes.
mod Tests
mod Lists
mod Texts
pub mod Bits
pub use Tests.*
pub use Lists.*
unfoldable pub use Texts.{str_eq, strchr, strrchr, has_char}
pub use Texts.{Texto, str_eq_iff, str_eq_refl, strchr-append, strrchr-append, strrchr-eq-none}
pub use Prim.Native.Nat.{ℕ, zero, suc, ◌+◌, ◌-◌, ◌*◌, ◌/◌, ◌%◌, ◌^◌, ◌≤◌, ◌<◌}
pub use mathlib.Core.Path.{◌≡◌, refl, sym, ap, ◌∙◌}
pub use mathlib.Core.Logic.{◌≢◌, ◌↔◌, ◌⊎◌, inl, inr}
pub use mathlib.Core.Bool.{Bool, true, false, not, ◌&&◌, ◌||◌}
pub use mathlib.Core.Option.{Option, none, some}
pub use mathlib.Core.List.{List, [], ◌∷◌, ◌++◌, map}
pub use native.Mathlib.Omega.{arith}
