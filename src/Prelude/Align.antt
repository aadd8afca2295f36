-- ===== src/Prelude/Align.antt =====
-- What `align_down!` and `align_up!` of macros.rs compute at a power of two.
use Prim.Native.Nat.{ℕ, ◌+◌, ◌-◌, ◌*◌, ◌/◌, ◌%◌, ◌^◌, ◌≤◌, ◌<◌, bit_and}
use mathlib.Core.Path.{◌≡◌, ap, ◌∙◌}
use native.Mathlib.Omega.{arith}
use native.Mathlib.Nat.{mul-mod_left, div-mul-le_self, lt-div-mul-add}
use libhermit_mpk.Prelude.Words.{u64_mod, add64, sub64, not64, align_down, align_up}
use libhermit_mpk.Prelude.Bits.{bit_and-high, pow_mono, pow_pos}

-- The mask of an alignment.
mask : (k : ℕ) → k < 64 → not64 (sub64 (2 ^ k) 1) ≡ 2 ^ 64 - 2 ^ k
mask k h = omega (arith, pow_mono k 63 (omega arith), pow_pos k)

pub align_down-pow : (k v : ℕ) → k < 64 → v < u64_mod → align_down v (2 ^ k) ≡ v / 2 ^ k * 2 ^ k
unfolding align_down
align_down-pow k v hk hv = ap (bit_and v) (mask k hk) ∙ bit_and-high k 64 v (omega arith) hv

pub record AlignsUp (v alignment r : ℕ) : Type 0 where
  pub above : v ≤ r
  pub near : r < v + alignment
  pub aligned : r % alignment ≡ 0

align_up-eq :
    (k v : ℕ) → k < 64 → v + 2 ^ k ≤ u64_mod → align_up v (2 ^ k) ≡ (v + 2 ^ k - 1) / 2 ^ k * 2 ^ k
unfolding align_up
align_up-eq k v hk hv =
    ap (λ t. align_down t (2 ^ k)) sum ∙ align_down-pow k (v + 2 ^ k - 1) hk below
  where
    below : v + 2 ^ k - 1 < u64_mod
    below = omega (arith, pow_pos k)

    sum : add64 v (sub64 (2 ^ k) 1) ≡ v + 2 ^ k - 1
    sum = omega (arith, pow_pos k, pow_mono k 63 (omega arith))

-- The least multiple of the alignment from `v` on.
pub align_up-pow :
    (k v : ℕ) → k < 64 → v + 2 ^ k ≤ u64_mod → AlignsUp v (2 ^ k) (align_up v (2 ^ k))
align_up-pow k v hk hv = rw (align_up-eq k v hk hv) (record {
  above = omega (arith, lt-div-mul-add {a = v + 2 ^ k - 1} (pow_pos k), pow_pos k);
  near = omega (arith, div-mul-le_self (v + 2 ^ k - 1) (2 ^ k), pow_pos k);
  aligned = mul-mod_left ((v + 2 ^ k - 1) / 2 ^ k) (2 ^ k);
})
