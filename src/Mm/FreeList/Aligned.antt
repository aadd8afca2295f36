-- ===== src/Mm/FreeList/Aligned.antt =====
-- `FreeList::allocate_aligned`: first fit at an aligned address.
use libhermit_mpk.Prelude.{
  ℕ, ◌+◌, ◌≤◌, ◌<◌, ◌≡◌, refl, inl, inr, Option, none, some, [], ◌∷◌, add64, ap, arith, u64_mod,
  ◌%◌, ◌^◌, align_up, Option-cases,
}
use libhermit_mpk.Mm.FreeList.{FreeList, FreeListEntry, allocate_address_for_node, allocate_aligned}
use libhermit_mpk.Prelude.Align.{AlignsUp, align_up-pow}
use libhermit_mpk.Mm.FreeList.Regions.{IsSorted, IsSorted-le, Takes}
use libhermit_mpk.Mm.FreeList.Takes.{Takes-cons, Takes-head, refused}

-- No region holds a block of `size` bytes at its first aligned address.
abbrev pub NoAlignedFit : FreeList → ℕ → ℕ → Type 0
NoAlignedFit [] size alignment = Unit {0}
NoAlignedFit (r ∷ rs) size alignment =
    (r.end < align_up r.start alignment + size) × NoAlignedFit rs size alignment

-- What a request for an aligned block returns and leaves.
abbrev pub AllocatesAligned : ℕ → ℕ → FreeList → ℕ → ℕ → Option ℕ × FreeList → Type 0
AllocatesAligned lo hi list size alignment (some a, list') =
    Takes lo hi list a (a + size) list' × (a % alignment ≡ 0)
AllocatesAligned lo hi list size alignment (none, list') =
    (list' ≡ list) × NoAlignedFit list size alignment

AllocatesAligned-cons :
    (lo hi size al : ℕ) (node : FreeListEntry) (rest : FreeList) (r : Option ℕ × FreeList)
    → IsSorted lo hi (node ∷ rest)
    → node.end < align_up node.start al + size
    → AllocatesAligned node.end hi rest size al r
    → AllocatesAligned lo hi (node ∷ rest) size al (r.0, node ∷ r.1)
AllocatesAligned-cons lo hi size al node rest (some a, rest') h no_fit t =
    (Takes-cons lo hi a (a + size) node rest rest' h t.0, t.1)
AllocatesAligned-cons lo hi size al node rest (none, rest') h no_fit t =
    (ap (◌∷◌ node) t.0, (no_fit, t.1))

-- For a sorted list, a positive size and an alignment that is a power of two, such that the end of the
-- list, the alignment and the size together stay below 2 ^ 64: `allocate_aligned` takes a free block
-- of the size at a multiple of the alignment. It fails only if no region holds the block at its first
-- aligned address, and then leaves the list.
pub allocate_aligned-AllocatesAligned :
    (lo hi size k : ℕ) (list : FreeList)
    → k < 64
    → hi + 2 ^ k + size < u64_mod
    → 0 < size
    → IsSorted lo hi list
    → AllocatesAligned lo hi list size (2 ^ k) (allocate_aligned list size (2 ^ k))
unfolding allocate_aligned
allocate_aligned-AllocatesAligned lo hi size k [] hk small pos h = (refl, tt)
allocate_aligned-AllocatesAligned lo hi size k (node ∷ rest) hk small pos h =
    rw no_wrap (elim (Option-cases (allocate_address_for_node a (a + size) node)) [
      | inl no_fit ↦ rw no_fit (
          AllocatesAligned-cons lo hi size (2 ^ k) node rest _ h
            (omega (arith, refused a (a + size) node no_fit, up.above))
            (allocate_aligned-AllocatesAligned node.end hi size k rest hk small pos h.2))
      | inr (nodes, fit) ↦
          rw fit (Takes-head lo hi a (a + size) node rest h (omega arith) nodes fit, up.aligned)
    ])
  where
    below : node.end ≤ hi
    below = IsSorted-le node.end hi rest h.2

    a : ℕ
    a = align_up node.start (2 ^ k)

    up : AlignsUp node.start (2 ^ k) a
    up = align_up-pow k node.start hk (omega (arith, below))

    no_wrap : add64 a size ≡ a + size
    no_wrap = omega (arith, below, up.near)
