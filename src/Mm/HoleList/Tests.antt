-- ===== src/Mm/HoleList/Tests.antt =====
-- The hole list at concrete inputs.
use libhermit_mpk.Prelude.{ℕ, ◌≡◌, refl, List, [], ◌∷◌, arith, align_up, true, false}
use libhermit_mpk.Prelude.{align_down}
use libhermit_mpk.Mm.HoleList.{
  HoleInfo, hole, allocate_first_fit, first_fit, split_hole, aligned_start, give_back, deallocate,
  allocated,
}
use libhermit_mpk.Mm.HoleList.Take.{
  Allocates, allocate_first_fit-Allocates, GivesBack, give_back-GivesBack,
}
use libhermit_mpk.Mm.HoleList.Holes.{covers, within}

abbrev two_holes : List HoleInfo
two_holes = hole 0x1000 0x100 ∷ hole 0x2000 0x1000 ∷ []

first_fit_test :
    allocate_first_fit two_holes (record { size = 0x200; align = 0x1000 })
    ≡ allocated 0x2000 (hole 0x1000 0x100 ∷ hole 0x2200 0xe00 ∷ [])
unfolding allocate_first_fit first_fit split_hole aligned_start give_back deallocate align_up
    align_down
first_fit_test = refl

allocate_first_fit-Allocates_example :
    Allocates 0x8000 two_holes
      (record { size = 0x200; align = 0x1000 })
      (allocate_first_fit two_holes (record { size = 0x200; align = 0x1000 }))
allocate_first_fit-Allocates_example =
    allocate_first_fit-Allocates 0x8000 12 0x200 two_holes (omega arith) (omega arith) (omega arith)
      (omega arith)

-- The block between the two holes, of which no address is in a hole.
between : (x : ℕ) → within 0x1800 0x800 x ≡ true → covers two_holes x ≡ false
between x w = ground arith

give_back-GivesBack_example :
    GivesBack 0x8000 two_holes (hole 0x1800 0x800) (give_back two_holes (hole 0x1800 0x800))
give_back-GivesBack_example =
    give_back-GivesBack 0x8000 two_holes (hole 0x1800 0x800) (omega arith) (omega arith)
      (omega arith) (omega arith) (omega arith) between
