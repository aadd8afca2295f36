-- ===== src/Prelude/Fields.antt =====
-- Bit fields: `|` of disjoint fields is a sum, and numbers with the same bits are equal.
use Prim.Native.Nat.{ℕ, zero, suc, ◌+◌, ◌-◌, ◌*◌, ◌/◌, ◌%◌, ◌^◌, ◌≤◌, ◌<◌, bit_and, bit_or}
use mathlib.Core.Path.{◌≡◌, refl, ap, ◌∙◌}
use native.Mathlib.Omega.{arith}
use native.Mathlib.Nat.{pow-suc, le_refl}
use mathlib.Core.Bool.{Bool, true, ◌&&◌}
use native.Mathlib.Decide.{ℕ_discrete}
use libhermit_mpk.Prelude.Bits.{ones-bit_and, bit_and-ones}
use libhermit_mpk.Prelude.Digits.{zero-bit_and, bit_and_halves, bit_or_halves}
use libhermit_mpk.Prelude.TestBit.{bit, bit-bit_and, bit-bit_or, bit-le, bit_or-lt, zero-bit}

-- Numbers below `2 ^ n` with the same `n` bits are equal.
pub eq_of_bits : (n x y : ℕ) → x < 2 ^ n → y < 2 ^ n → ((i : ℕ) → i < n → bit x i ≡ bit y i) → x ≡ y
unfolding bit
eq_of_bits zero x y hx hy same = omega arith
eq_of_bits (suc n) x y hx hy same =
    let low : x % 2 ≡ y % 2 = same 0 (omega arith) in
    let high : x / 2 ≡ y / 2 =
      eq_of_bits n (x / 2) (y / 2) (omega (arith, pow-suc 2 n)) (omega (arith, pow-suc 2 n))
        (λ i lt. same (suc i) (omega arith)) in
    omega arith

zero_right : (n x : ℕ) → x ≤ n → (bit_or x 0 ≡ x) × (bit_and x 0 ≡ 0)
zero_right zero x le = let e : x ≡ 0 = omega arith in rw e (refl, refl)
zero_right (suc n) x le =
    let ih = zero_right n (x / 2) (omega arith) in
    (omega (arith, bit_or_halves x 0, ih.0), omega (arith, bit_and_halves x 0, ih.1))

and_comm : (n x y : ℕ) → x ≤ n → bit_and x y ≡ bit_and y x
and_comm zero x y le =
    let e : x ≡ 0 = omega arith in
    rw e (omega (arith, zero-bit_and y, (zero_right y y (le_refl y)).1))
and_comm (suc n) x y le =
    omega (arith, bit_and_halves x y, bit_and_halves y x, and_comm n (x / 2) (y / 2) (omega arith))

pub bit_and_comm : (x y : ℕ) → bit_and x y ≡ bit_and y x
bit_and_comm x y = and_comm x x y (le_refl x)

pub bit_or_comm : (x y : ℕ) → x < 2 ^ 64 → y < 2 ^ 64 → bit_or x y ≡ bit_or y x
bit_or_comm x y hx hy =
    eq_of_bits 64 _ _ (bit_or-lt 64 x y hx hy) (bit_or-lt 64 y x hy hx)
      (λ i lt. omega (arith, bit-bit_or i x y, bit-bit_or i y x))

-- A mask of ones takes the remainder.
pub bit_and-mod : (m x : ℕ) → bit_and x (2 ^ m - 1) ≡ x % 2 ^ m
bit_and-mod m x = bit_and_comm x (2 ^ m - 1) ∙ ones-bit_and m x

double : (q k : ℕ) → q * 2 ^ suc k ≡ 2 * (q * 2 ^ k)
double q k = omega (arith, ap (λ (t : ℕ). q * t) (pow-suc 2 k))

pub bit_or-shifted : (n high low : ℕ) → low < 2 ^ n → bit_or (high * 2 ^ n) low ≡ high * 2 ^ n + low
bit_or-shifted zero high low h =
    let e : low ≡ 0 = omega arith in
    let f : high * 2 ^ 0 ≡ high = omega arith in
    rw (e, f, (zero_right high high (le_refl high)).0) (omega arith)
bit_or-shifted (suc n) high low h = omega (
  arith,
  bit_or_halves (high * 2 ^ suc n) low,
  double high n,
  ap (λ (t : ℕ). bit_or t (low / 2)) half,
  bit_or-shifted n high (low / 2) (omega (arith, pow-suc 2 n)),
)
  where
    half : high * 2 ^ suc n / 2 ≡ high * 2 ^ n
    half = omega (arith, double high n)

-- A test of every number below a bound, by evaluation.
abbrev pub all_below : ℕ → (ℕ → Bool) → Bool
all_below zero test = true
all_below (suc n) test = test n && all_below n test

pub holds_below :
    (n : ℕ) (test : ℕ → Bool) → all_below n test ≡ true → (i : ℕ) → i < n → test i ≡ true
holds_below zero test e i lt = absurd (omega arith)
holds_below (suc n) test e i lt = elim (ℕ_discrete i n) [
  | yes same ↦ rw same (ground arith)
  | no ne ↦ holds_below n test (ground arith) i (omega arith)
]

-- The bits of a multiple of `2 ^ n`, and of a number below it.
pub low_bits : (n i x : ℕ) → x % 2 ^ n ≡ 0 → bit (2 ^ n - 1) i ≡ 1 → bit x i ≡ 0
low_bits n i x e one = omega (
  arith,
  bit-bit_and i x (2 ^ n - 1),
  ap (λ (t : ℕ). bit t i) (bit_and-mod n x ∙ e),
  zero-bit i,
  one,
  bit-le x i,
)

pub high_bits : (n i x : ℕ) → x < 2 ^ n → bit (2 ^ n - 1) i ≡ 0 → bit x i ≡ 0
high_bits n i x h none =
    omega (arith, bit-bit_and i x (2 ^ n - 1), ap (λ (t : ℕ). bit t i) (bit_and-ones n x h), none)
