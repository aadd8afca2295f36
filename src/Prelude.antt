-- ===== src/Prelude.antt =====
-- The names that all modules share: library names passed on, Boolean tests, lists and machine
-- words. The code works on 64-bit `usize` values, see `Prelude/Words.antt`.
mod Tests
mod Lists
mod Words
mod Digits
pub mod Bits
pub mod Align
pub mod TestBit
pub mod Fields
pub use Tests.*
pub use Lists.*
pub use Words.*
unfoldable pub use Words.{align_up, align_down}
pub use Prim.Native.Nat.{
  ℕ, zero, suc, ◌+◌, ◌-◌, ◌*◌, ◌/◌, ◌%◌, ◌^◌, ◌≤◌, ◌<◌, bit_and, bit_or, bit_xor,
}
pub use mathlib.Core.Path.{◌≡◌, refl, sym, ap, ◌∙◌, subst, fun_ext}
pub use mathlib.Core.Logic.{◌≢◌, ◌↔◌, ◌⊎◌, inl, inr}
pub use mathlib.Core.Bool.{Bool, true, false, not, ◌&&◌, ◌||◌}
pub use mathlib.Core.Option.{Option, none, some}
pub use mathlib.Core.List.{List, [], ◌∷◌, ◌++◌, map, append-nil, append_assoc}
pub use native.Mathlib.Omega.{arith}
