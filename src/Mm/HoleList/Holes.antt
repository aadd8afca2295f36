-- ===== src/Mm/HoleList/Holes.antt =====
-- What a list of holes stands for, and its invariant.
use libhermit_mpk.Prelude.{
  ℕ, true, ◌+◌, ◌≤◌, ◌<◌, ◌≡◌, refl, ◌⊎◌, Bool, false, ◌&&◌, ◌||◌, List, [], ◌∷◌, ltb, leb, arith,
}
use libhermit_mpk.Mm.HoleList.{HoleInfo, min_size}

-- Whether `x` lies in the block of `size` bytes at `addr`.
abbrev pub within : ℕ → ℕ → ℕ → Bool
within addr size x = leb addr x && ltb x (addr + size)

-- Whether address `x` is in a hole.
abbrev pub covers : List HoleInfo → ℕ → Bool
covers [] x = false
covers (h ∷ hs) x = within h.addr h.size x || covers hs x

-- Holes rise along the list from above `lo` up to `hi`, none is smaller than the least size, and
-- between two of them, and above `lo`, lies at least one byte in use.
abbrev pub IsApart : ℕ → ℕ → List HoleInfo → Type 0
IsApart lo hi [] = lo ≤ hi
IsApart lo hi (h ∷ hs) = (lo < h.addr) × (min_size ≤ h.size) × IsApart (h.addr + h.size) hi hs

-- The block of `size` bytes at `addr` meets no hole.
abbrev pub Avoids : List HoleInfo → ℕ → ℕ → Type 0
Avoids [] addr size = Unit {0}
Avoids (h ∷ hs) addr size =
    ((addr + size ≤ h.addr) ⊎ (h.addr + h.size ≤ addr)) × Avoids hs addr size

pub IsApart-le : (lo hi : ℕ) (hs : List HoleInfo) → IsApart lo hi hs → lo ≤ hi
IsApart-le lo hi [] h = h
IsApart-le lo hi (x ∷ hs) h = omega (arith, IsApart-le (x.addr + x.size) hi hs h.2)

pub covers-below :
    (lo hi x : ℕ) (hs : List HoleInfo) → IsApart lo hi hs → x ≤ lo → covers hs x ≡ false
covers-below lo hi x [] h le = refl
covers-below lo hi x (y ∷ hs) h le = ground (arith, covers-below (y.addr + y.size) hi x hs h.2)

pub covers-above :
    (lo hi x : ℕ) (hs : List HoleInfo) → IsApart lo hi hs → hi ≤ x → covers hs x ≡ false
covers-above lo hi x [] h le = refl
covers-above lo hi x (y ∷ hs) h le =
    ground
      (arith, covers-above (y.addr + y.size) hi x hs h.2, IsApart-le (y.addr + y.size) hi hs h.2)

-- A block of which no address is in a hole meets no hole.
pub Avoids-of_covers :
    (lo hi addr size : ℕ) (hs : List HoleInfo)
    → 0 < size
    → IsApart lo hi hs
    → ((x : ℕ) → within addr size x ≡ true → covers hs x ≡ false)
    → Avoids hs addr size
Avoids-of_covers lo hi addr size [] pos sep f = tt
Avoids-of_covers lo hi addr size (h ∷ hs) pos sep f = (
  apart,
  Avoids-of_covers (h.addr + h.size) hi addr size hs pos sep.2 (λ x w. ground (arith, f x w)),
)
  where
    apart : (addr + size ≤ h.addr) ⊎ (h.addr + h.size ≤ addr)
    apart = ground (arith, f addr, f h.addr)

pub IsApart-raise :
    (lo hi hi' : ℕ) (hs : List HoleInfo) → hi ≤ hi' → IsApart lo hi hs → IsApart lo hi' hs
IsApart-raise lo hi hi' [] le sep = omega arith
IsApart-raise lo hi hi' (h ∷ hs) le sep =
    (sep.0, sep.1, IsApart-raise (h.addr + h.size) hi hi' hs le sep.2)
