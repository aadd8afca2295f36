-- ===== src/Mm/FreeList.antt =====
-- src/mm/freelist.rs: the list of free regions behind the physical and virtual memory managers.
-- The linked list of nodes is the list of their entries in order; `iter`, `remove`, `insert_after`,
-- `insert_before` and `push` act on it by position. `Err(())` is `none`.
pub mod Regions
pub mod Takes
pub mod Allocate
pub mod Aligned
pub mod Reserve
pub mod Deallocate
pub mod RoundTrip
mod Tests
use libhermit_mpk.Prelude.{
  ℕ, ◌&&◌, Option, none, some, List, [], ◌∷◌, ◌++◌, ltb, ◌==◌, if◌then◌else◌, add64, sub64,
  align_up,
}

pub record FreeListEntry : Type 0 where
  pub start : ℕ
  pub end : ℕ

abbrev pub FreeList : Type 0
FreeList = List FreeListEntry

abbrev pub entry : ℕ → ℕ → FreeListEntry
entry s e = record { start = s; end = e }

-- The first region that is larger is shrunk, one of exactly the size is removed.
unfoldable pub allocate : FreeList → ℕ → Option ℕ × FreeList
allocate [] size = (none, [])
allocate (node ∷ rest) size =
    let (found, rest') = allocate rest size in
    if ltb size (sub64 node.end node.start)
    then (some node.start, record node { start = add64 node.start size } ∷ rest)
    else if sub64 node.end node.start == size
    then (some node.start, rest)
    else (found, node ∷ rest')

-- What stands in the place of a node from which the block is taken, and `none` for `false`.
unfoldable pub allocate_address_for_node : ℕ → ℕ → FreeListEntry → Option FreeList
allocate_address_for_node address end node =
    if node.start == address && node.end == end
    then some []
    else if ltb node.start address && node.end == end
    then some (record node { end = address } ∷ [])
    else if node.start == address && ltb end node.end
    then some (record node { start = end } ∷ [])
    else if ltb node.start address && ltb end node.end
    then some (record node { end = address } ∷ entry end node.end ∷ [])
    else none

-- One round of the loop of `allocate_aligned`: the node yields the block, or the search goes on.
abbrev pub settle :
    ℕ → FreeListEntry → FreeList → Option FreeList → Option ℕ × FreeList → Option ℕ × FreeList
settle address node rest (some nodes) later = (some address, nodes ++ rest)
settle address node rest none (found, rest') = (found, node ∷ rest')

unfoldable pub allocate_aligned : FreeList → ℕ → ℕ → Option ℕ × FreeList
allocate_aligned [] size alignment = (none, [])
allocate_aligned (node ∷ rest) size alignment =
    let address = align_up node.start alignment in
    let later = allocate_aligned rest size alignment in
    settle address node rest (allocate_address_for_node address (add64 address size) node) later

-- One round of the loop of `reserve`.
abbrev pub settle_reserve :
    FreeListEntry → FreeList → Option FreeList → Option FreeList → Option FreeList
settle_reserve node rest (some nodes) later = some (nodes ++ rest)
settle_reserve node rest none none = none
settle_reserve node rest none (some rest') = some (node ∷ rest')

-- The loop of `reserve`, over the end of the block.
reserve_to : FreeList → ℕ → ℕ → Option FreeList
reserve_to [] address end = none
reserve_to (node ∷ rest) address end =
    let later = reserve_to rest address end in
    settle_reserve node rest (allocate_address_for_node address end node) later

pub reserve : FreeList → ℕ → ℕ → Option FreeList
unfolding reserve_to
reserve list address size = reserve_to list address (add64 address size)

-- A region that ends at the block is extended to the right. The code looks at the next node here,
-- but reads both of its bounds from `node` itself.
extend_right : FreeListEntry → FreeList → ℕ → FreeList
extend_right node [] end = record node { end = end } ∷ []
extend_right node (next_node ∷ rest) end =
    if node.start == end
    then record node { end = node.end } ∷ rest
    else record node { end = end } ∷ next_node ∷ rest

-- The loop of `deallocate`, over the end of the block.
deallocate_to : FreeList → ℕ → ℕ → FreeList
deallocate_to [] address end = entry address end ∷ []
deallocate_to (node ∷ rest) address end =
    let rest' = deallocate_to rest address end in
    if node.start == end
    then record node { start = address } ∷ rest
    else if node.end == address
    then extend_right node rest end
    else if ltb end node.start
    then entry address end ∷ node ∷ rest
    else node ∷ rest'

pub deallocate : FreeList → ℕ → ℕ → FreeList
unfolding deallocate_to
deallocate list address size = deallocate_to list address (add64 address size)
