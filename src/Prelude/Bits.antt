-- ===== src/Prelude/Bits.antt =====
-- Powers of two, and what masks of ones keep of a number.
use Prim.Native.Nat.{ℕ, zero, suc, ◌-◌, ◌*◌, ◌/◌, ◌%◌, ◌^◌, ◌≤◌, ◌<◌, bit_and}
use libhermit_mpk.Prelude.Digits.{bit_and_halves, zero-bit_and}
use mathlib.Core.Path.{◌≡◌, ap}
use native.Mathlib.Omega.{arith}
use native.Mathlib.Nat.{pow-suc, pow-succ', div-div-eq-div-mul, mod-eq-sub-div-mul, div-mul-le_self}

pub pow_pos : (exponent : ℕ) → 1 ≤ 2 ^ exponent
pow_pos zero = omega arith
pow_pos (suc exponent) = omega (arith, pow-suc 2 exponent, pow_pos exponent)

half-ones : (m : ℕ) → (2 ^ suc m - 1) / 2 ≡ 2 ^ m - 1
half-ones m = omega (arith, pow-suc 2 m, pow_pos m)

-- A mask of `m` ones keeps a number below `2 ^ m`.
pub bit_and-ones : (m x : ℕ) → x < 2 ^ m → bit_and x (2 ^ m - 1) ≡ x
bit_and-ones zero x h = let e : x ≡ 0 = omega arith in rw e
bit_and-ones (suc m) x h = omega (
  arith,
  bit_and_halves x (2 ^ suc m - 1),
  ap (bit_and (x / 2)) (half-ones m),
  bit_and-ones m (x / 2) (omega (arith, pow-suc 2 m)),
  pow-suc 2 m,
  pow_pos m,
)

half-high : (k n : ℕ) → (2 ^ suc n - 2 ^ suc k) / 2 ≡ 2 ^ n - 2 ^ k
half-high k n = omega (arith, pow-suc 2 n, pow-suc 2 k)

pub pow_mono : (k n : ℕ) → k ≤ n → 2 ^ k ≤ 2 ^ n
pow_mono zero n h = pow_pos n
pow_mono (suc k) zero h = absurd (omega arith)
pow_mono (suc k) (suc n) h = omega (arith, pow-suc 2 n, pow-suc 2 k, pow_mono k n (omega arith))

-- A mask with the bits from `k` up to `n` clears the `k` low bits of a number below `2 ^ n`.
pub bit_and-high : (k n x : ℕ) → k ≤ n → x < 2 ^ n → bit_and x (2 ^ n - 2 ^ k) ≡ x / 2 ^ k * 2 ^ k
bit_and-high zero n x le h = omega (arith, bit_and-ones n x h)
bit_and-high (suc k) zero x le h = absurd (omega arith)
bit_and-high (suc k) (suc n) x le h = omega (
  arith,
  bit_and_halves x (2 ^ suc n - 2 ^ suc k),
  ap (bit_and (x / 2)) (half-high k n),
  bit_and-high k n (x / 2) (omega arith) (omega (arith, pow-suc 2 n)),
  pow-suc 2 n,
  pow-suc 2 k,
  ap (λ (t : ℕ). x / t * t) (pow-succ' 2 k),
  ap (λ (t : ℕ). t * (2 * 2 ^ k)) (div-div-eq-div-mul x 2 (2 ^ k)),
)

-- A mask of ones in front takes the remainder.
pub ones-bit_and : (m x : ℕ) → bit_and (2 ^ m - 1) x ≡ x % 2 ^ m
ones-bit_and zero x = omega (arith, zero-bit_and x)
ones-bit_and (suc m) x = omega (
  arith,
  bit_and_halves (2 ^ suc m - 1) x,
  ap (λ (t : ℕ). bit_and t (x / 2)) (half-ones m),
  ones-bit_and m (x / 2),
  pow-suc 2 m,
  pow_pos m,
  ap (λ (t : ℕ). x % t) (pow-succ' 2 m),
  mod-eq-sub-div-mul x (2 * 2 ^ m),
  mod-eq-sub-div-mul (x / 2) (2 ^ m),
  div-mul-le_self (x / 2) (2 ^ m),
  ap (λ (t : ℕ). t * (2 * 2 ^ m)) (div-div-eq-div-mul x 2 (2 ^ m)),
)
