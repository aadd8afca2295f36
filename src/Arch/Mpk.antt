-- ===== src/Arch/Mpk.antt =====
-- src/arch/x86_64/mm/mpk.rs: memory protection keys. The register PKRU is a 32-bit word; key `k`
-- has its bits `2 * k` (no access) and `2 * k + 1` (no writes). `ospke` says whether the processor
-- supports it. A negative `i32` is written in two's complement.
pub mod Rights
pub mod Pages
mod Tests
use libhermit_mpk.Prelude.{
  ℕ, ◌+◌, ◌-◌, ◌*◌, ◌/◌, ◌%◌, ◌^◌, Bool, true, false, not, Option, none, some, ltb, ◌==◌,
  if◌then◌else◌, u32_mod, u64_mod, bit_and, bit_or, not32, not64, add64, sub64,
}

pub data MpkPerm : Type 0 where
  mpk_rw mpk_ro mpk_none : MpkPerm

abbrev pub neg : ℕ → ℕ
neg n = u32_mod - n

abbrev pub einval : ℕ
einval = 22

abbrev pub enosys : ℕ
enosys = 38

-- Each of these has the code and the new value.
pub pkru_set_ro : ℕ → ℕ → ℕ × ℕ
pkru_set_ro key val =
    if ltb 15 key
    then (neg einval, val)
    else (0, bit_or (bit_and val (not32 (2 ^ (key * 2)))) (2 ^ (key * 2 + 1)))

pub pkru_set_rw : ℕ → ℕ → ℕ × ℕ
pkru_set_rw key val =
    if ltb 15 key
    then (neg einval, val)
    else (0, bit_and (bit_and val (not32 (2 ^ (key * 2)))) (not32 (2 ^ (key * 2 + 1))))

pub pkru_set_no_access : ℕ → ℕ → ℕ × ℕ
pkru_set_no_access key val =
    if ltb 15 key
    then (neg einval, val)
    else (0, bit_or (bit_or val (2 ^ (key * 2))) (2 ^ (key * 2 + 1)))

abbrev pub set_rights : MpkPerm → ℕ → ℕ → ℕ × ℕ
set_rights MpkPerm.mpk_rw key val = pkru_set_rw key val
set_rights MpkPerm.mpk_ro key val = pkru_set_ro key val
set_rights MpkPerm.mpk_none key val = pkru_set_no_access key val

-- The code and PKRU. The code of the helper is dropped.
pub mpk_set_perm : Bool → ℕ → ℕ → MpkPerm → ℕ × ℕ
mpk_set_perm ospke pkru key perm =
    if not ospke then (neg enosys, pkru) else (0, (set_rights perm key pkru).1)

-- The old value and PKRU; the guard is the opposite of that of the other functions.
pub mpk_swap_pkru : Bool → ℕ → ℕ → ℕ × ℕ
mpk_swap_pkru ospke pkru new_pkru = if ospke then (0, pkru) else (pkru, new_pkru)

pub mpk_clear_pkru : Bool → ℕ → ℕ
mpk_clear_pkru ospke pkru = if not ospke then pkru else 0

pub mpk_get_pkru : Bool → ℕ → ℕ
mpk_get_pkru ospke pkru = if not ospke then 0 else pkru

pub mpk_set_pkru : Bool → ℕ → ℕ → ℕ
mpk_set_pkru ospke pkru val = if ospke then val else pkru

-- The code, and the first address, the number of pages and the key that go to
-- `set_pkey_on_page_table_entry`, for pages of `page_size` bytes.
abbrev pub ceil_size : ℕ → ℕ → ℕ
ceil_size page_size size =
    if ltb 0 (bit_and (sub64 page_size 1) size)
    then bit_and (add64 size page_size) (not64 (sub64 page_size 1))
    else size

abbrev pub page_count : ℕ → ℕ → ℕ
page_count page_size size =
    if ltb 0 (size % page_size) then add64 (size / page_size) 1 else size / page_size

pub mpk_mem_set_key : Bool → ℕ → ℕ → ℕ → ℕ → ℕ × Option (ℕ × ℕ × ℕ)
mpk_mem_set_key ospke page_size addr size key =
    if not ospke then (neg enosys, none) else if ltb 15 key then (neg einval, none) else (
      0,
      some (
        bit_and addr (not64 (sub64 page_size 1)),
        page_count page_size (ceil_size page_size size),
        key,
      ),
    )
