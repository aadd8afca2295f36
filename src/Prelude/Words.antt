-- ===== src/Prelude/Words.antt =====
-- Machine words. A `usize` or `u64` is a number below 2^64; `+` and `-` wrap as in a build without
-- overflow checks. `!x`, `<<` and the macros `align_down!` and `align_up!` of macros.rs.
use Prim.Native.Nat.{ℕ, ◌+◌, ◌-◌, ◌%◌, ◌^◌, bit_and}

abbrev pub u64_mod : ℕ
u64_mod = 2 ^ 64

abbrev pub add64 : ℕ → ℕ → ℕ
add64 a b = (a + b) % u64_mod

abbrev pub sub64 : ℕ → ℕ → ℕ
sub64 a b = (a + u64_mod - b) % u64_mod

abbrev pub not64 : ℕ → ℕ
not64 a = u64_mod - 1 - a

abbrev pub u32_mod : ℕ
u32_mod = 2 ^ 32

abbrev pub not32 : ℕ → ℕ
not32 a = u32_mod - 1 - a

unfoldable pub align_down : ℕ → ℕ → ℕ
align_down value alignment = bit_and value (not64 (sub64 alignment 1))

unfoldable pub align_up : ℕ → ℕ → ℕ
align_up value alignment = align_down (add64 value (sub64 alignment 1)) alignment
