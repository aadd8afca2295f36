-- ===== src/Prelude/Digits.antt =====
-- The digit recursion that the native `&` and `|` stand for: its fuel, and its lowest digit.
use Prim.Native.Nat.{
  ℕ, zero, suc, ◌+◌, ◌-◌, ◌*◌, ◌/◌, ◌%◌, ◌≤◌, min, max, bit_and, bit_or, digits, bit_and-bitwise,
  bit_or-bitwise,
}
use mathlib.Core.Path.{◌≡◌, refl, ap, sym, ◌∙◌}
use native.Mathlib.Omega.{arith}

module _ (rest : ℕ → ℕ) (op : ℕ → ℕ → ℕ) where
  no_digit : (fuel y : ℕ) → digits rest op fuel 0 y ≡ rest y
  no_digit zero y = refl
  no_digit (suc fuel) y = refl

  -- Fuel beyond the number changes nothing.
  spare_fuel :
      (fuel spare x y : ℕ) → x ≤ fuel → digits rest op (fuel + spare) x y ≡ digits rest op fuel x y
  spare_fuel fuel spare zero y le = no_digit (fuel + spare) y ∙ sym (no_digit fuel y)
  spare_fuel zero spare (suc x) y le = absurd (omega arith)
  spare_fuel (suc fuel) spare (suc x) y le =
      let same : suc fuel + spare ≡ suc (fuel + spare) = omega arith in
      ap (λ n. digits rest op n (suc x) y) same
      ∙ ap (λ d. d * 2 + op (suc x % 2) (y % 2))
          (spare_fuel fuel spare (suc x / 2) (y / 2) (omega arith))

  -- One digit of a number that is not zero.
  low_digit :
      (x y : ℕ)
      → digits rest op (suc x) (suc x) y
        ≡ digits rest op (suc x / 2) (suc x / 2) (y / 2) * 2 + op (suc x % 2) (y % 2)
  low_digit x y =
      ap (λ d. d * 2 + op (suc x % 2) (y % 2))
        (ap (λ n. digits rest op n (suc x / 2) (y / 2)) split
          ∙ spare_fuel (suc x / 2) (x - suc x / 2) (suc x / 2) (y / 2) (omega arith))
    where
      split : x ≡ suc x / 2 + (x - suc x / 2)
      split = omega arith

pub zero-bit_and : (y : ℕ) → bit_and 0 y ≡ 0
zero-bit_and = bit_and-bitwise 0

pub zero-bit_or : (y : ℕ) → bit_or 0 y ≡ y
zero-bit_or = bit_or-bitwise 0

pub bit_and_halves : (x y : ℕ) → bit_and x y ≡ bit_and (x / 2) (y / 2) * 2 + min (x % 2) (y % 2)
bit_and_halves zero y = omega (arith, zero-bit_and y, zero-bit_and (y / 2))
bit_and_halves (suc x) y =
    bit_and-bitwise (suc x) y
    ∙ low_digit (λ _. zero) min x y
    ∙ ap (λ d. d * 2 + min (suc x % 2) (y % 2)) (sym (bit_and-bitwise (suc x / 2) (y / 2)))

pub bit_or_halves : (x y : ℕ) → bit_or x y ≡ bit_or (x / 2) (y / 2) * 2 + max (x % 2) (y % 2)
bit_or_halves zero y = omega (arith, zero-bit_or y, zero-bit_or (y / 2))
bit_or_halves (suc x) y =
    bit_or-bitwise (suc x) y
    ∙ low_digit (λ d. d) max x y
    ∙ ap (λ d. d * 2 + max (suc x % 2) (y % 2)) (sym (bit_or-bitwise (suc x / 2) (y / 2)))
