-- ===== src/Mm/FreeList/Reserve.antt =====
-- `FreeList::reserve`: a block at a given address.
use libhermit_mpk.Prelude.{
  ℕ, ◌+◌, ◌<◌, ◌≡◌, ◌⊎◌, inl, inr, Option, none, some, [], ◌∷◌, add64, arith, u64_mod, Option-cases,
}
use libhermit_mpk.Mm.FreeList.{
  FreeList, FreeListEntry, allocate_address_for_node, reserve_to, reserve,
}
use libhermit_mpk.Mm.FreeList.{settle_reserve}
use libhermit_mpk.Mm.FreeList.Regions.{IsSorted, Takes}
use libhermit_mpk.Mm.FreeList.Takes.{Takes-cons, Takes-head, refused}

-- No region contains the block.
abbrev pub NoRegion : FreeList → ℕ → ℕ → Type 0
NoRegion [] a e = Unit {0}
NoRegion (r ∷ rs) a e = ((a < r.start) ⊎ (r.end < e)) × NoRegion rs a e

abbrev pub Reserves : ℕ → ℕ → FreeList → ℕ → ℕ → Option FreeList → Type 0
Reserves lo hi list a e (some list') = Takes lo hi list a e list'
Reserves lo hi list a e none = NoRegion list a e

Reserves-cons :
    (lo hi a e : ℕ) (node : FreeListEntry) (rest : FreeList) (r : Option FreeList)
    → IsSorted lo hi (node ∷ rest)
    → (a < node.start) ⊎ (node.end < e)
    → Reserves node.end hi rest a e r
    → Reserves lo hi (node ∷ rest) a e (settle_reserve node rest none r)
Reserves-cons lo hi a e node rest (some rest') h no_fit t = Takes-cons lo hi a e node rest rest' h t
Reserves-cons lo hi a e node rest none h no_fit t = (no_fit, t)

reserve_to-Reserves :
    (lo hi a e : ℕ) (list : FreeList)
    → a < e
    → IsSorted lo hi list
    → Reserves lo hi list a e (reserve_to list a e)
unfolding reserve_to
reserve_to-Reserves lo hi a e [] lt h = tt
reserve_to-Reserves lo hi a e (node ∷ rest) lt h =
    elim (Option-cases (allocate_address_for_node a e node)) [
      | inl no_fit ↦ rw no_fit (
          Reserves-cons lo hi a e node rest _ h (refused a e node no_fit)
            (reserve_to-Reserves node.end hi a e rest lt h.2))
      | inr (nodes, fit) ↦ rw fit (Takes-head lo hi a e node rest h lt nodes fit)
    ]

-- For a sorted list and a block of positive size that ends below 2 ^ 64, `reserve` takes exactly the
-- block that is asked for out of the list. It fails only if no region contains the block.
pub reserve-Reserves :
    (lo hi a size : ℕ) (list : FreeList)
    → a + size < u64_mod
    → 0 < size
    → IsSorted lo hi list
    → Reserves lo hi list a (a + size) (reserve list a size)
unfolding reserve
reserve-Reserves lo hi a size list small pos h =
    let no_wrap : add64 a size ≡ a + size = omega arith in
    rw no_wrap (reserve_to-Reserves lo hi a (a + size) list (omega arith) h)
