-- ===== src/Mm/FreeList/Deallocate.antt =====
-- `FreeList::deallocate`: a block comes back, and joins a neighbour where the code looks for one.
use libhermit_mpk.Prelude.{ℕ, ◌+◌, ◌≤◌, ◌<◌, ◌≡◌, ◌≢◌, refl, ◌||◌, [], ◌∷◌, arith, u64_mod, add64}
use libhermit_mpk.Mm.FreeList.{FreeList, FreeListEntry, extend_right, deallocate_to, deallocate}
use libhermit_mpk.Mm.FreeList.Regions.{within, covers, IsSorted, Avoids}

-- `list'` is `list` with the block from `a` up to `e` put in.
pub record Gives (lo hi : ℕ) (list : FreeList) (a e : ℕ) (list' : FreeList) : Type 0 where
  pub sorted : IsSorted lo hi list'
  pub now_free : (x : ℕ) → covers list' x ≡ (covers list x || within a e x)

-- The look at the next node changes nothing: a region that starts at the end of the block was taken
-- by the branch before.
extend_right_lem :
    (node : FreeListEntry) (rest : FreeList) (e : ℕ)
    → node.start ≢ e
    → extend_right node rest e ≡ record node { end = e } ∷ rest
unfolding extend_right
extend_right_lem node [] e ne = refl
extend_right_lem node (next ∷ rest) e ne = ground arith

module _ (hi a e : ℕ) (lt : a < e) (fits : e ≤ hi) where
  -- Regions that avoid the block and lie behind one that ends at its start lie behind the block.
  IsSorted-from :
      (lo : ℕ) (list : FreeList)
      → lo ≡ a
      → IsSorted lo hi list
      → Avoids list a e
      → IsSorted e hi list
  IsSorted-from lo [] eq h av = fits
  IsSorted-from lo (r ∷ rs) eq h av = (omega arith, h.1, h.2)

  IsSorted-after :
      (lo : ℕ) (list : FreeList)
      → lo ≤ a
      → IsSorted lo hi list
      → Avoids list a e
      → IsSorted lo hi (deallocate_to list a e)
  unfolding deallocate_to
  IsSorted-after lo [] le h av = (le, lt, fits)
  IsSorted-after lo (node ∷ rest) le h av = ground (
    arith,
    IsSorted-after node.end rest,
    extend_right_lem node rest e,
    λ (q : node.end ≡ a). IsSorted-from node.end rest q h.2 av.1,
  )

  covers_after :
      (lo x : ℕ) (list : FreeList)
      → IsSorted lo hi list
      → Avoids list a e
      → covers (deallocate_to list a e) x ≡ (covers list x || within a e x)
  unfolding deallocate_to
  covers_after lo x [] h av = ground arith
  covers_after lo x (node ∷ rest) h av =
      ground (arith, covers_after node.end x rest h.2 av.1, extend_right_lem node rest e)

-- `deallocate` makes exactly the block free, and keeps the regions sorted and apart, if nothing of
-- the block was free before.
pub deallocate-Gives :
    (lo hi a size : ℕ) (list : FreeList)
    → hi < u64_mod
    → 0 < size
    → lo ≤ a
    → a + size ≤ hi
    → IsSorted lo hi list
    → Avoids list a (a + size)
    → Gives lo hi list a (a + size) (deallocate list a size)
unfolding deallocate
deallocate-Gives lo hi a size list small pos le fits h av =
    let no_wrap : add64 a size ≡ a + size = omega arith in
    rw no_wrap (record {
      sorted = IsSorted-after hi a (a + size) (omega arith) fits lo list le h av;
      now_free = λ x. covers_after hi a (a + size) (omega arith) fits lo x list h av;
    })
