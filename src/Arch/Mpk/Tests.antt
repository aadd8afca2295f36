-- ===== src/Arch/Mpk/Tests.antt =====
-- Protection keys at concrete inputs.
use libhermit_mpk.Prelude.{◌^◌, ◌≡◌, refl, true, arith}
use libhermit_mpk.Arch.Mpk.{MpkPerm, pkru_set_ro, mpk_set_perm, mpk_mem_set_key}
use libhermit_mpk.Arch.Mpk.Rights.{Sets, mpk_set_perm-Sets}
use libhermit_mpk.Arch.Mpk.Pages.{Tags, mpk_mem_set_key-Tags}

-- Key 1 may only be read.
mpk_set_perm_test : mpk_set_perm true 0 1 MpkPerm.mpk_ro ≡ (0, 8)
unfolding mpk_set_perm pkru_set_ro
mpk_set_perm_test = refl

mpk_set_perm-Sets_example :
    ((mpk_set_perm true 5 1 MpkPerm.mpk_ro).0 ≡ 0)
    × Sets 5 1 MpkPerm.mpk_ro (mpk_set_perm true 5 1 MpkPerm.mpk_ro).1
mpk_set_perm-Sets_example = mpk_set_perm-Sets 5 1 MpkPerm.mpk_ro (omega arith) (omega arith)

mpk_mem_set_key-Tags_example :
    Tags (2 ^ 12) 0x3000 0x1800 2 (mpk_mem_set_key true (2 ^ 12) 0x3000 0x1800 2)
mpk_mem_set_key-Tags_example =
    mpk_mem_set_key-Tags 12 0x3000 0x1800 2 (omega arith) (omega arith) (omega arith) (omega arith)
