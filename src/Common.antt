-- ===== src/Common.antt =====
-- The names that the other modules share: the libraries', passed on, and those of the children:
-- Boolean tests, C arrays as lists, machine words, and the laws of exclusive or.
mod Tests
mod Arrays
mod Words
mod Digits
mod Xor
mod XorSolve
mod Loops
mod Bytes
mod Fill
mod Cuts
mod Tables
mod Lanes
mod Updates
mod Bits
unfoldable pub use Tests.*
pub use Arrays.*
pub use Words.*
pub use Xor.*
pub use XorSolve.*
pub use Loops.*
pub use Bytes.*
pub use Fill.*
pub use Cuts.*
pub use Tables.*
pub use Digits.*
pub use Bits.*
pub use Updates.*
unfoldable pub use Lanes.*
pub use Prim.Native.Nat.{ℕ, zero, suc, ◌+◌, ◌-◌, ◌*◌, ◌/◌, ◌%◌, ◌^◌, ◌≤◌, ◌<◌}
pub use Prim.Native.Nat.{bit_and, bit_or, bit_xor}
pub use mathlib.Core.Path.{◌≡◌, refl, sym, ap, ap₂, ◌∙◌, subst}
pub use mathlib.Core.Logic.{◌≢◌, ◌↔◌, ◌⊎◌, inl, inr}
pub use mathlib.Core.Bool.{Bool, true, false, not, ◌&&◌, ◌||◌}
pub use mathlib.Core.Option.{Option, none, some}
pub use mathlib.Core.List.{List, [], ◌∷◌, ◌++◌, map}
pub use native.Mathlib.Omega.{arith}
