-- ===== src/Mm/FreeList/Tests.antt =====
-- The free list at concrete inputs.
use libhermit_mpk.Prelude.{◌≡◌, refl, some, [], ◌∷◌, arith}
use libhermit_mpk.Mm.FreeList.{
  FreeList, entry, allocate, allocate_aligned, reserve, deallocate, deallocate_to, extend_right,
}
use libhermit_mpk.Mm.FreeList.Allocate.{Allocates, allocate-Allocates}
use libhermit_mpk.Mm.FreeList.Aligned.{AllocatesAligned, allocate_aligned-AllocatesAligned}
use libhermit_mpk.Mm.FreeList.Reserve.{Reserves, reserve-Reserves}
use libhermit_mpk.Mm.FreeList.Deallocate.{Gives, deallocate-Gives}
use libhermit_mpk.Mm.FreeList.RoundTrip.{RoundTrip, deallocate-allocate}

-- The list of the unit tests in freelist.rs.
abbrev one_region : FreeList
one_region = entry 0x10000 0x100000 ∷ []

abbrev two_regions : FreeList
two_regions = entry 0x1000 0x2000 ∷ entry 0x3000 0x8000 ∷ []

allocate_test : allocate one_region 0x1000 ≡ (some 0x10000, entry 0x11000 0x100000 ∷ [])
unfolding allocate
allocate_test = refl

-- The gap between two regions is freed: they touch, and are not joined.
deallocate_test :
    deallocate two_regions 0x2000 0x1000 ≡ entry 0x1000 0x3000 ∷ entry 0x3000 0x8000 ∷ []
unfolding deallocate deallocate_to extend_right
deallocate_test = refl

allocate-Allocates_example :
    Allocates 0x1000 0x8000 two_regions 0x2000 (allocate two_regions 0x2000)
allocate-Allocates_example =
    allocate-Allocates 0x1000 0x8000 0x2000 two_regions (omega arith) (omega arith) (omega arith)

allocate_aligned-AllocatesAligned_example :
    AllocatesAligned 0x1000 0x8000 two_regions 0x1000 0x4000
      (allocate_aligned two_regions 0x1000 0x4000)
allocate_aligned-AllocatesAligned_example =
    allocate_aligned-AllocatesAligned 0x1000 0x8000 0x1000 14 two_regions (omega arith)
      (omega arith) (omega arith) (omega arith)

reserve-Reserves_example :
    Reserves 0x1000 0x8000 two_regions 0x4000 0x5000 (reserve two_regions 0x4000 0x1000)
reserve-Reserves_example =
    reserve-Reserves 0x1000 0x8000 0x4000 0x1000 two_regions (omega arith) (omega arith)
      (omega arith)

deallocate-Gives_example :
    Gives 0x1000 0x8000 two_regions 0x2000 0x3000 (deallocate two_regions 0x2000 0x1000)
deallocate-Gives_example =
    deallocate-Gives 0x1000 0x8000 0x2000 0x1000 two_regions (omega arith) (omega arith)
      (omega arith) (omega arith) (omega arith) (omega arith)

deallocate-allocate_example :
    RoundTrip 0x1000 0x8000 two_regions 0x2000 (allocate two_regions 0x2000)
deallocate-allocate_example =
    deallocate-allocate 0x1000 0x8000 0x2000 two_regions (omega arith) (omega arith) (omega arith)
