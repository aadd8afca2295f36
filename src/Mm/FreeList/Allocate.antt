-- ===== src/Mm/FreeList/Allocate.antt =====
-- `FreeList::allocate`: first fit by size.
use libhermit_mpk.Prelude.{
  ℕ, ◌+◌, ◌≤◌, ◌<◌, ◌≡◌, refl, inl, inr, Bool-cases, Option, none, some, [], ◌∷◌, ltb, ◌==◌, add64,
  sub64, ap, arith, u64_mod,
}
use libhermit_mpk.Mm.FreeList.{FreeList, FreeListEntry, allocate_address_for_node, allocate}
use libhermit_mpk.Mm.FreeList.Regions.{IsSorted, IsSorted-le, Takes}
use libhermit_mpk.Mm.FreeList.Takes.{Takes-cons, Takes-head}

-- No region has `size` bytes.
abbrev pub NoFit : FreeList → ℕ → Type 0
NoFit [] size = Unit {0}
NoFit (r ∷ rs) size = (r.end < r.start + size) × NoFit rs size

-- What a request for `size` bytes returns and leaves.
abbrev pub Allocates : ℕ → ℕ → FreeList → ℕ → Option ℕ × FreeList → Type 0
Allocates lo hi list size (some a, list') = Takes lo hi list a (a + size) list'
Allocates lo hi list size (none, list') = (list' ≡ list) × NoFit list size

Allocates-cons :
    (lo hi size : ℕ) (node : FreeListEntry) (rest : FreeList) (r : Option ℕ × FreeList)
    → IsSorted lo hi (node ∷ rest)
    → node.end < node.start + size
    → Allocates node.end hi rest size r
    → Allocates lo hi (node ∷ rest) size (r.0, node ∷ r.1)
Allocates-cons lo hi size node rest (some a, rest') h no_fit t =
    Takes-cons lo hi a (a + size) node rest rest' h t
Allocates-cons lo hi size node rest (none, rest') h no_fit t = (ap (◌∷◌ node) t.0, (no_fit, t.1))

-- The two ways in which `allocate` uses a node.
shrink :
    (node : FreeListEntry) (size : ℕ)
    → 0 < size
    → node.start + size < node.end
    → allocate_address_for_node node.start (node.start + size) node
      ≡ some (record node { start = node.start + size } ∷ [])
unfolding allocate_address_for_node
shrink node size pos h = ground arith

use_up :
    (node : FreeListEntry) (size : ℕ)
    → node.start + size ≡ node.end
    → allocate_address_for_node node.start (node.start + size) node ≡ some []
unfolding allocate_address_for_node
use_up node size h = ground arith

-- `allocate` takes a free block of the size out of the list. It fails only if no region has room,
-- and then leaves the list.
pub allocate-Allocates :
    (lo hi size : ℕ) (list : FreeList)
    → hi < u64_mod
    → 0 < size
    → IsSorted lo hi list
    → Allocates lo hi list size (allocate list size)
unfolding allocate
allocate-Allocates lo hi size [] small pos h = (refl, tt)
allocate-Allocates lo hi size (node ∷ rest) small pos h =
    elim (Bool-cases (ltb size (sub64 node.end node.start))) [
      | inl larger ↦
          rw (larger, fits (ground (arith, below)))
            (Takes-head lo hi node.start _ node rest h (omega arith) _
              (shrink node size pos (ground (arith, below))))
      | inr other ↦ elim (Bool-cases (sub64 node.end node.start == size)) [
        | inl exact ↦
            rw (other, exact)
              (Takes-head lo hi node.start _ node rest h (omega arith) []
                (use_up node size (ground (arith, below))))
        | inr smaller ↦
            rw (other, smaller)
              (Allocates-cons lo hi size node rest _ h (ground (arith, below))
                (allocate-Allocates node.end hi size rest small pos h.2))
      ]
    ]
  where
    below : node.end < u64_mod
    below = omega (arith, IsSorted-le node.end hi rest h.2)

    fits : node.start + size ≤ node.end → add64 node.start size ≡ node.start + size
    fits le = omega (arith, below)
