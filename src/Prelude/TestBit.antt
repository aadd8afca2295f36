-- ===== src/Prelude/TestBit.antt =====
-- Single bits of a word, through `|`, `&` and `!`.
use Prim.Native.Nat.{ℕ, zero, suc, ◌+◌, ◌-◌, ◌/◌, ◌%◌, ◌^◌, ◌≤◌, ◌<◌, min, max, bit_and, bit_or}
use mathlib.Core.Path.{◌≡◌, refl, ap, ◌∙◌}
use mathlib.Core.Logic.{◌≢◌}
use native.Mathlib.Omega.{arith}
use native.Mathlib.Nat.{pow-suc}
use native.Mathlib.Decide.{ℕ_discrete}
use libhermit_mpk.Prelude.Tests.{◌==◌, if◌then◌else◌}
use libhermit_mpk.Prelude.Words.{u32_mod, not32, u64_mod, not64}
use libhermit_mpk.Prelude.Bits.{pow_mono}
use libhermit_mpk.Prelude.Digits.{zero-bit_and, bit_and_halves, bit_or_halves}

-- Bit `i` of a number.
unfoldable pub bit : ℕ → ℕ → ℕ
bit a zero = a % 2
bit a (suc i) = bit (a / 2) i

pub bit-le : (a i : ℕ) → bit a i ≤ 1
unfolding bit
bit-le a zero = omega arith
bit-le a (suc i) = bit-le (a / 2) i

pub bit-bit_and : (i a b : ℕ) → bit (bit_and a b) i ≡ min (bit a i) (bit b i)
unfolding bit
bit-bit_and zero a b = omega (arith, bit_and_halves a b)
bit-bit_and (suc i) a b =
    ap (λ t. bit t i) (omega (arith, bit_and_halves a b)) ∙ bit-bit_and i (a / 2) (b / 2)

pub bit-bit_or : (i a b : ℕ) → bit (bit_or a b) i ≡ max (bit a i) (bit b i)
unfolding bit
bit-bit_or zero a b = omega (arith, bit_or_halves a b)
bit-bit_or (suc i) a b =
    ap (λ t. bit t i) (omega (arith, bit_or_halves a b)) ∙ bit-bit_or i (a / 2) (b / 2)

pub zero-bit : (i : ℕ) → bit 0 i ≡ 0
unfolding bit
zero-bit zero = refl
zero-bit (suc i) = zero-bit i

half-pow : (i : ℕ) → 2 ^ suc i / 2 ≡ 2 ^ i
half-pow i = omega (arith, pow-suc 2 i)

-- `1 << i` has bit `i` alone.
pub bit-pow_self : (i : ℕ) → bit (2 ^ i) i ≡ 1
unfolding bit
bit-pow_self zero = refl
bit-pow_self (suc i) = rw (half-pow i) (bit-pow_self i)

pub bit-pow_ne : (i j : ℕ) → i ≢ j → bit (2 ^ i) j ≡ 0
unfolding bit
bit-pow_ne zero zero ne = absurd (ne refl)
bit-pow_ne zero (suc j) ne = zero-bit j
bit-pow_ne (suc i) zero ne = omega (arith, pow-suc 2 i)
bit-pow_ne (suc i) (suc j) ne = rw (half-pow i) (bit-pow_ne i j (λ e. ne (ap suc e)))

bit-flip : (n i x : ℕ) → i < n → x < 2 ^ n → bit (2 ^ n - 1 - x) i + bit x i ≡ 1
unfolding bit
bit-flip zero i x lt h = absurd (omega arith)
bit-flip (suc n) zero x lt h = omega (arith, pow-suc 2 n)
bit-flip (suc n) (suc i) x lt h =
    omega (
      arith,
      ap (λ t. bit t i) half,
      bit-flip n i (x / 2) (omega arith) (omega (arith, pow-suc 2 n)),
    )
  where
    half : (2 ^ suc n - 1 - x) / 2 ≡ 2 ^ n - 1 - x / 2
    half = omega (arith, pow-suc 2 n)

pub bit-not64 : (i x : ℕ) → i < 64 → x < u64_mod → bit (not64 x) i + bit x i ≡ 1
bit-not64 i x lt h = bit-flip 64 i x lt h

pub bit-not32 : (i x : ℕ) → i < 32 → x < u32_mod → bit (not32 x) i + bit x i ≡ 1
bit-not32 i x lt h = bit-flip 32 i x lt h

bit-not32_pow : (i j : ℕ) → i < 32 → j < 32 → bit (not32 (2 ^ i)) j + bit (2 ^ i) j ≡ 1
bit-not32_pow i j hi hj = bit-not32 j (2 ^ i) hj (omega (arith, pow_mono i 31 (omega arith)))

-- One bit is set, or cleared.
pub bit-set : (v i j : ℕ) → bit (bit_or v (2 ^ i)) j ≡ (if i == j then 1 else bit v j)
bit-set v i j = elim (ℕ_discrete i j) [
  | yes e ↦ rw e (ground (arith, bit-bit_or j v (2 ^ j), bit-pow_self j, bit-le v j))
  | no ne ↦ ground (arith, bit-bit_or j v (2 ^ i), bit-pow_ne i j ne)
]

pub bit-clear32 :
    (v i j : ℕ)
    → i < 32
    → j < 32
    → bit (bit_and v (not32 (2 ^ i))) j ≡ (if i == j then 0 else bit v j)
bit-clear32 v i j hi hj = elim (ℕ_discrete i j) [
  | yes e ↦
      rw e
        (ground (arith, bit-bit_and j v (not32 (2 ^ j)), bit-pow_self j, bit-not32_pow j j hj hj))
  | no ne ↦ ground (
    arith,
    bit-bit_and j v (not32 (2 ^ i)),
    bit-pow_ne i j ne,
    bit-not32_pow i j hi hj,
    bit-le v j,
  )
]

-- A number below `2 ^ n` is 0 if its `n` low bits are.
pub eq-zero_of_bits : (n x : ℕ) → x < 2 ^ n → ((i : ℕ) → i < n → bit x i ≡ 0) → x ≡ 0
unfolding bit
eq-zero_of_bits zero x h f = omega arith
eq-zero_of_bits (suc n) x h f =
    let low : x % 2 ≡ 0 = f zero (omega arith) in
    let high : x / 2 ≡ 0 =
      eq-zero_of_bits n (x / 2) (omega (arith, pow-suc 2 n)) (λ i lt. f (suc i) (omega arith)) in
    omega arith

pub bit_or-lt : (n a b : ℕ) → a < 2 ^ n → b < 2 ^ n → bit_or a b < 2 ^ n
bit_or-lt zero a b p q =
    let e : a ≡ 0 = omega arith in let f : b ≡ 0 = omega arith in rw (e, f) (omega arith)
bit_or-lt (suc n) a b p q = omega (
  arith,
  bit_or_halves a b,
  pow-suc 2 n,
  bit_or-lt n (a / 2) (b / 2) (omega (arith, pow-suc 2 n)) (omega (arith, pow-suc 2 n)),
)

pub bit_and-lt : (n a b : ℕ) → a < 2 ^ n → bit_and a b < 2 ^ n
bit_and-lt zero a b p = let e : a ≡ 0 = omega arith in rw e (omega (arith, zero-bit_and b))
bit_and-lt (suc n) a b p = omega (
  arith,
  bit_and_halves a b,
  pow-suc 2 n,
  bit_and-lt n (a / 2) (b / 2) (omega (arith, pow-suc 2 n)),
)
