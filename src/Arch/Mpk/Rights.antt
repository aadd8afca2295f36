-- ===== src/Arch/Mpk/Rights.antt =====
-- What a permission makes of the rights of the keys.
use libhermit_mpk.Prelude.{
  ◌∙◌, ℕ, ◌+◌, ◌*◌, ◌^◌, ◌<◌, ◌≤◌, ◌≡◌, ◌≢◌, refl, true, false, ltb, ◌==◌, if◌then◌else◌, arith,
  bit_and, bit_or, not32, u32_mod,
}
use libhermit_mpk.Prelude.Bits.{pow_mono}
use libhermit_mpk.Prelude.TestBit.{bit, bit-set, bit-clear32, bit_or-lt, bit_and-lt}
use libhermit_mpk.Arch.Mpk.{
  MpkPerm, set_rights, pkru_set_ro, pkru_set_rw, pkru_set_no_access, mpk_set_perm,
}

-- The two bits of a key in PKRU: whether access is denied, and whether writing is.
abbrev pub rights : ℕ → ℕ → ℕ × ℕ
rights pkru key = (bit pkru (key * 2), bit pkru (key * 2 + 1))

abbrev pub rights_of : MpkPerm → ℕ × ℕ
rights_of MpkPerm.mpk_rw = (0, 0)
rights_of MpkPerm.mpk_ro = (0, 1)
rights_of MpkPerm.mpk_none = (1, 1)

abbrev pub Same : ℕ × ℕ → ℕ × ℕ → Type 0
Same (a, b) (c, d) = (a ≡ c) × (b ≡ d)

pub record Sets (pkru key : ℕ) (perm : MpkPerm) (pkru' : ℕ) : Type 0 where
  pub word : pkru' < u32_mod
  pub own : Same (rights pkru' key) (rights_of perm)
  pub others : (k : ℕ) → k ≤ 15 → k ≢ key → Same (rights pkru' k) (rights pkru k)

-- A word in which at most the two bits of a key have changed.
abbrev Changes : ℕ → ℕ → ℕ × ℕ → ℕ → Type 0
Changes pkru key (x, y) pkru' =
    (j : ℕ)
    → j < 32
    → bit pkru' j ≡ (if key * 2 + 1 == j then y else if key * 2 == j then x else bit pkru j)

Sets-of_Changes :
    (pkru key : ℕ) (perm : MpkPerm) (r : ℕ × ℕ) (pkru' : ℕ)
    → key ≤ 15
    → Same r (rights_of perm)
    → pkru' < u32_mod
    → Changes pkru key r pkru'
    → Sets pkru key perm pkru'
Sets-of_Changes pkru key perm (x, y) pkru' le same w c = record {
  word = w;
  own = (
    c (key * 2) (omega arith) ∙ ground arith ∙ same.0,
    c (key * 2 + 1) (omega arith) ∙ ground arith ∙ same.1,
  );
  others = λ k lk ne.
      (c (k * 2) (omega arith) ∙ ground arith, c (k * 2 + 1) (omega arith) ∙ ground arith);
}

small_pow : (key : ℕ) → key ≤ 15 → (2 ^ (key * 2) < u32_mod) × (2 ^ (key * 2 + 1) < u32_mod)
small_pow key le = (
  omega (arith, pow_mono (key * 2) 31 (omega arith)),
  omega (arith, pow_mono (key * 2 + 1) 31 (omega arith)),
)

module _ (pkru key : ℕ) (w : pkru < u32_mod) (le : key ≤ 15) where
  low : 2 ^ (key * 2) < u32_mod
  low = (small_pow key le).0

  high : 2 ^ (key * 2 + 1) < u32_mod
  high = (small_pow key le).1

  valid : ltb 15 key ≡ false
  valid = ground arith

  rw-Changes : Changes pkru key (0, 0) (pkru_set_rw key pkru).1
  unfolding pkru_set_rw
  rw-Changes j lt = rw valid (
      bit-clear32 (bit_and pkru (not32 (2 ^ (key * 2)))) (key * 2 + 1) j (omega arith) lt
      ∙ ground (arith, bit-clear32 pkru (key * 2) j (omega arith) lt))

  ro-Changes : Changes pkru key (0, 1) (pkru_set_ro key pkru).1
  unfolding pkru_set_ro
  ro-Changes j lt = rw valid (
      bit-set (bit_and pkru (not32 (2 ^ (key * 2)))) (key * 2 + 1) j
      ∙ ground (arith, bit-clear32 pkru (key * 2) j (omega arith) lt))

  none-Changes : Changes pkru key (1, 1) (pkru_set_no_access key pkru).1
  unfolding pkru_set_no_access
  none-Changes j lt = rw valid (
      bit-set (bit_or pkru (2 ^ (key * 2))) (key * 2 + 1) j
      ∙ ground (arith, bit-set pkru (key * 2) j))

  set_rights-word : (perm : MpkPerm) → (set_rights perm key pkru).1 < u32_mod
  unfolding pkru_set_ro pkru_set_rw pkru_set_no_access
  set_rights-word MpkPerm.mpk_rw =
      rw valid (bit_and-lt 32 _ _ (bit_and-lt 32 pkru (not32 (2 ^ (key * 2))) w))
  set_rights-word MpkPerm.mpk_ro =
      rw valid (bit_or-lt 32 _ _ (bit_and-lt 32 pkru (not32 (2 ^ (key * 2))) w) high)
  set_rights-word MpkPerm.mpk_none =
      rw valid (bit_or-lt 32 _ _ (bit_or-lt 32 pkru (2 ^ (key * 2)) w low) high)

  set_rights-Sets : (perm : MpkPerm) → Sets pkru key perm (set_rights perm key pkru).1
  set_rights-Sets MpkPerm.mpk_rw =
      Sets-of_Changes pkru key MpkPerm.mpk_rw (0, 0) _ le (refl, refl)
        (set_rights-word MpkPerm.mpk_rw) rw-Changes
  set_rights-Sets MpkPerm.mpk_ro =
      Sets-of_Changes pkru key MpkPerm.mpk_ro (0, 1) _ le (refl, refl)
        (set_rights-word MpkPerm.mpk_ro) ro-Changes
  set_rights-Sets MpkPerm.mpk_none =
      Sets-of_Changes pkru key MpkPerm.mpk_none (1, 1) _ le (refl, refl)
        (set_rights-word MpkPerm.mpk_none) none-Changes

-- On a processor with protection keys, `mpk_set_perm` of a valid key returns 0, gives the key the
-- rights of the permission, and leaves the rights of all other keys.
pub mpk_set_perm-Sets :
    (pkru key : ℕ) (perm : MpkPerm)
    → pkru < u32_mod
    → key ≤ 15
    → ((mpk_set_perm true pkru key perm).0 ≡ 0)
      × Sets pkru key perm (mpk_set_perm true pkru key perm).1
unfolding mpk_set_perm
mpk_set_perm-Sets pkru key perm w le = (refl, set_rights-Sets pkru key w le perm)
