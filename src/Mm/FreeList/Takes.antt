-- ===== src/Mm/FreeList/Takes.antt =====
-- One node of the list: `allocate_address_for_node`, and a block taken out of the head or the tail.
use libhermit_mpk.Prelude.{ℕ, ◌≤◌, ◌<◌, ◌≡◌, ◌⊎◌, not, ◌&&◌, none, some, [], ◌∷◌, ◌++◌, arith}
use libhermit_mpk.Mm.FreeList.{FreeList, FreeListEntry, allocate_address_for_node}
use libhermit_mpk.Mm.FreeList.Regions.{within, covers, IsSorted, IsSorted-mono, covers-below, Takes}

-- A block taken out of the tail is not in the head.
pub Takes-cons :
    (lo hi a e : ℕ) (node : FreeListEntry) (rest rest' : FreeList)
    → IsSorted lo hi (node ∷ rest)
    → Takes node.end hi rest a e rest'
    → Takes lo hi (node ∷ rest) a e (node ∷ rest')
Takes-cons lo hi a e node rest rest' h t = record {
  sorted = (h.0, h.1, t.sorted);
  was_free = λ x i. ground (arith, t.was_free x);
  left = λ x. ground (arith, t.was_free x, t.left x, covers-below node.end hi x rest h.2);
}

-- A block taken out of the head.
module _ (lo hi a e : ℕ) (node : FreeListEntry) (rest : FreeList) (h : IsSorted lo hi (node ∷ rest))
    (lt : a < e) where
  IsSorted-after :
      (nodes : FreeList)
      → allocate_address_for_node a e node ≡ some nodes
      → IsSorted lo hi (nodes ++ rest)
  unfolding allocate_address_for_node
  IsSorted-after [] q = IsSorted-mono node.end lo hi rest (omega arith) h.2
  IsSorted-after (r ∷ []) q = ground (arith, IsSorted-mono node.end r.end hi rest)
  IsSorted-after (r ∷ r' ∷ []) q = ground (arith, IsSorted-mono node.end r'.end hi rest)
  IsSorted-after (r ∷ r' ∷ r'' ∷ rs) q = ground arith

  inside :
      (nodes : FreeList)
      → allocate_address_for_node a e node ≡ some nodes
      → (node.start ≤ a) × (e ≤ node.end)
  unfolding allocate_address_for_node
  inside nodes q = ground arith

  left_after :
      (x : ℕ) (nodes : FreeList)
      → allocate_address_for_node a e node ≡ some nodes
      → covers (nodes ++ rest) x ≡ (covers (node ∷ rest) x && not (within a e x))
  unfolding allocate_address_for_node
  left_after x nodes q = ground (arith, covers-below node.end hi x rest h.2)

  pub Takes-head :
      (nodes : FreeList)
      → allocate_address_for_node a e node ≡ some nodes
      → Takes lo hi (node ∷ rest) a e (nodes ++ rest)
  Takes-head nodes q = record {
    sorted = IsSorted-after nodes q;
    was_free = λ x i. ground (arith, inside nodes q);
    left = λ x. left_after x nodes q;
  }

-- `allocate_address_for_node` refuses exactly the nodes that do not contain the block.
pub refused :
    (a e : ℕ) (node : FreeListEntry)
    → allocate_address_for_node a e node ≡ none
    → (a < node.start) ⊎ (node.end < e)
unfolding allocate_address_for_node
refused a e node q = ground arith
