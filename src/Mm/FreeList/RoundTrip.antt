-- ===== src/Mm/FreeList/RoundTrip.antt =====
-- `deallocate` after `allocate`, and how far freed regions are joined.
use libhermit_mpk.Prelude.{
  ℕ, ◌+◌, ◌-◌, ◌≤◌, ◌<◌, ◌≡◌, ◌⊎◌, false, true, [], ◌∷◌, none, some, Option, arith, u64_mod, add64,
  length,
}
use libhermit_mpk.Mm.FreeList.{FreeList, extend_right, deallocate_to, deallocate, allocate}
use libhermit_mpk.Mm.FreeList.Regions.{
  within, covers, IsSorted, covers-below, covers-above, Avoids, Takes,
}
use libhermit_mpk.Mm.FreeList.Allocate.{Allocates, allocate-Allocates}
use libhermit_mpk.Mm.FreeList.Deallocate.{Gives, deallocate-Gives}

-- A block of which no address is free avoids the list.
Avoids-of_covers :
    (lo hi a e : ℕ) (list : FreeList)
    → a < e
    → IsSorted lo hi list
    → ((x : ℕ) → within a e x ≡ true → covers list x ≡ false)
    → Avoids list a e
Avoids-of_covers lo hi a e [] lt h f = tt
Avoids-of_covers lo hi a e (r ∷ rs) lt h f =
    (apart, Avoids-of_covers r.end hi a e rs lt h.2 (λ x w. ground (arith, f x w)))
  where
    apart : (e ≤ r.start) ⊎ (r.end ≤ a)
    apart = ground (arith, f a, f r.start)

Takes-bounds :
    (lo hi a e : ℕ) (list list' : FreeList)
    → a < e
    → IsSorted lo hi list
    → Takes lo hi list a e list'
    → (lo ≤ a) × (e ≤ hi)
Takes-bounds lo hi a e list list' lt h t = (
  ground (arith, t.was_free a, covers-below lo hi a list h),
  ground (arith, t.was_free (e - 1), covers-above lo hi (e - 1) list h),
)

-- `list'` has the same free addresses as `list`.
abbrev pub Restores : ℕ → ℕ → FreeList → FreeList → Type 0
Restores lo hi list list' = IsSorted lo hi list' × ((x : ℕ) → covers list' x ≡ covers list x)

Restores-of_Takes :
    (lo hi a size : ℕ) (list list' : FreeList)
    → hi < u64_mod
    → 0 < size
    → IsSorted lo hi list
    → Takes lo hi list a (a + size) list'
    → Restores lo hi list (deallocate list' a size)
Restores-of_Takes lo hi a size list list' small pos h t =
    (gives.sorted, λ x. ground (arith, gives.now_free x, t.left x, t.was_free x))
  where
    bounds : (lo ≤ a) × (a + size ≤ hi)
    bounds = Takes-bounds lo hi a (a + size) list list' (omega arith) h t

    gives : Gives lo hi list' a (a + size) (deallocate list' a size)
    gives = deallocate-Gives lo hi a size list' small pos bounds.0 bounds.1 t.sorted (
        Avoids-of_covers lo hi a (a + size) list' (omega arith) t.sorted
          (λ x w. ground (arith, t.left x)))

abbrev pub RoundTrip : ℕ → ℕ → FreeList → ℕ → Option ℕ × FreeList → Type 0
RoundTrip lo hi list size (some a, list') = Restores lo hi list (deallocate list' a size)
RoundTrip lo hi list size (none, list') = list' ≡ list

round_trip :
    (lo hi size : ℕ) (list : FreeList) (r : Option ℕ × FreeList)
    → hi < u64_mod
    → 0 < size
    → IsSorted lo hi list
    → Allocates lo hi list size r
    → RoundTrip lo hi list size r
round_trip lo hi size list (some a, list') small pos h t =
    Restores-of_Takes lo hi a size list list' small pos h t
round_trip lo hi size list (none, list') small pos h t = t.0

-- Memory that is allocated and then freed leaves exactly the addresses free that were free before,
-- in a sorted list; a request that fails changes nothing.
pub deallocate-allocate :
    (lo hi size : ℕ) (list : FreeList)
    → hi < u64_mod
    → 0 < size
    → IsSorted lo hi list
    → RoundTrip lo hi list size (allocate list size)
deallocate-allocate lo hi size list small pos h =
    round_trip lo hi size list _ small pos h (allocate-Allocates lo hi size list small pos h)

length-deallocate_to : (list : FreeList) (a e : ℕ) → length list ≤ length (deallocate_to list a e)
unfolding deallocate_to extend_right
length-deallocate_to [] a e = omega arith
length-deallocate_to (node ∷ []) a e = ground arith
length-deallocate_to (node ∷ next ∷ rest) a e =
    ground (arith, length-deallocate_to (next ∷ rest) a e)

-- The number of regions never falls when memory is freed: a block that fills the gap between two
-- regions extends one of them and is not joined with both.
pub length-deallocate :
    (list : FreeList) (a size : ℕ) → length list ≤ length (deallocate list a size)
unfolding deallocate
length-deallocate list a size = length-deallocate_to list a (add64 a size)
