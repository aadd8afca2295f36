-- ===== src/Mm/FreeList/Regions.antt =====
-- What a free list stands for: the addresses that its regions cover, and its invariant.
use libhermit_mpk.Prelude.{
  ℕ, ◌≤◌, ◌<◌, ◌≡◌, refl, ◌⊎◌, Bool, true, false, not, ◌&&◌, ◌||◌, [], ◌∷◌, ltb, leb, arith,
}
use libhermit_mpk.Mm.FreeList.{FreeList}

-- Whether `x` lies in the block from `s` up to `e`.
abbrev pub within : ℕ → ℕ → ℕ → Bool
within s e x = leb s x && ltb x e

-- Whether address `x` is free.
abbrev pub covers : FreeList → ℕ → Bool
covers [] x = false
covers (r ∷ rs) x = within r.start r.end x || covers rs x

-- Regions are not empty, do not overlap, rise along the list and lie between `lo` and `hi`.
abbrev pub IsSorted : ℕ → ℕ → FreeList → Type 0
IsSorted lo hi [] = lo ≤ hi
IsSorted lo hi (r ∷ rs) = (lo ≤ r.start) × (r.start < r.end) × IsSorted r.end hi rs

-- The block from `s` up to `e` meets no region.
abbrev pub Avoids : FreeList → ℕ → ℕ → Type 0
Avoids [] s e = Unit {0}
Avoids (r ∷ rs) s e = ((e ≤ r.start) ⊎ (r.end ≤ s)) × Avoids rs s e

pub IsSorted-le : (lo hi : ℕ) (rs : FreeList) → IsSorted lo hi rs → lo ≤ hi
IsSorted-le lo hi [] h = h
IsSorted-le lo hi (r ∷ rs) h = omega (arith, IsSorted-le r.end hi rs h.2)

pub IsSorted-mono :
    (lo lo' hi : ℕ) (rs : FreeList) → lo' ≤ lo → IsSorted lo hi rs → IsSorted lo' hi rs
IsSorted-mono lo lo' hi [] le h = omega arith
IsSorted-mono lo lo' hi (r ∷ rs) le h = (omega arith, h.1, h.2)

-- Nothing below the least region is free.
pub covers-below : (lo hi x : ℕ) (rs : FreeList) → IsSorted lo hi rs → x < lo → covers rs x ≡ false
covers-below lo hi x [] h lt = ground arith
covers-below lo hi x (r ∷ rs) h lt = ground (arith, covers-below r.end hi x rs h.2)

-- `list'` is `list` with the block from `a` up to `e`, free before, taken out of it.
pub record Takes (lo hi : ℕ) (list : FreeList) (a e : ℕ) (list' : FreeList) : Type 0 where
  pub sorted : IsSorted lo hi list'
  pub was_free : (x : ℕ) → within a e x ≡ true → covers list x ≡ true
  pub left : (x : ℕ) → covers list' x ≡ (covers list x && not (within a e x))

-- Nor is anything above the limit.
pub covers-above : (lo hi x : ℕ) (rs : FreeList) → IsSorted lo hi rs → hi ≤ x → covers rs x ≡ false
covers-above lo hi x [] h le = refl
covers-above lo hi x (r ∷ rs) h le =
    ground (arith, covers-above r.end hi x rs h.2, IsSorted-le r.end hi rs h.2)
