-- ===== src/Mm/Heap/System.antt =====
-- The heap over its hole list: requests, releases and growth.
use libhermit_mpk.Prelude.{refl}
use libhermit_mpk.Prelude.{
  ℕ, ◌+◌, ◌%◌, ◌^◌, ◌≤◌, ◌<◌, ◌≡◌, true, false, not, ◌&&◌, ◌||◌, Option, none, some, List, leb,
  ◌==◌, arith, u64_mod, align_up,
}
use libhermit_mpk.Prelude.Align.{AlignsUp, align_up-pow}
use libhermit_mpk.Prelude.Bits.{pow_mono}
use libhermit_mpk.Mm.HoleList.{HoleInfo, hole, Layout, min_size, Outcome, give_back}
use libhermit_mpk.Mm.HoleList
use libhermit_mpk.Mm.HoleList.Holes.{within, covers, IsApart}
use libhermit_mpk.Mm.HoleList.Take.{GivesBack, give_back-GivesBack}
use libhermit_mpk.Mm.Heap.{
  Heap, Reply, panic, alloc_err, pointer, hole_size, fits_layout, with_holes, set_holes,
  allocate_first_fit, deallocate,
}

-- A heap that `init` gave its memory: holes lie below its top, above address 0.
pub record IsReady (heap : Heap) : Type 0 where
  pub has_memory : 0 < heap.bottom
  pub bounded : heap.bottom + heap.size + 2 ^ 34 < u64_mod
  pub apart : IsApart 0 (heap.bottom + heap.size) heap.holes

-- The size that is asked of the hole list holds the request, and is at least the least size.
pub hole_size_bounds :
    (size : ℕ)
    → size < 2 ^ 32
    → (size ≤ hole_size size) × (min_size ≤ hole_size size) × (hole_size size < size + 72)
unfolding hole_size
hole_size_bounds size small = ground (arith, small_up, exact_up)
  where
    small_up : AlignsUp min_size 8 (align_up min_size 8)
    small_up = align_up-pow 3 min_size (omega arith) (omega arith)

    exact_up : AlignsUp size 8 (align_up size 8)
    exact_up = align_up-pow 3 size (omega arith) (omega arith)

-- What a request of a ready heap returns and leaves.
abbrev pub Allocates : Heap → Layout → Reply → Type 0
Allocates heap layout panic = ⊥
Allocates heap layout (alloc_err heap') = heap' ≡ heap
Allocates heap layout (pointer p heap') =
    (p % layout.align ≡ 0)
    × (heap' ≡ record heap { holes = heap'.holes })
    × IsReady heap'
    × ((x : ℕ) → within p (hole_size layout.size) x ≡ true → covers heap.holes x ≡ true)
    × ((x : ℕ)
        → covers heap'.holes x ≡ (covers heap.holes x && not (within p (hole_size layout.size) x)))

-- The request as it goes to the hole list.
abbrev rounded : Layout → Layout
rounded layout = record layout { size = hole_size layout.size }

with_holes-Allocates :
    (heap : Heap) (layout : Layout) (r : Outcome)
    → IsReady heap
    → HoleList.Take.Allocates (heap.bottom + heap.size) heap.holes (rounded layout) r
    → Allocates heap layout (with_holes heap r)
with_holes-Allocates heap layout Outcome.panic v a = a
with_holes-Allocates heap layout (Outcome.alloc_err holes) v a = λ i. record heap { holes = a i }
with_holes-Allocates heap layout (Outcome.allocated p holes) v a =
    (a.0, refl, record { has_memory = v.has_memory; bounded = v.bounded; apart = a.1 }, a.2, a.3)

pub heap_allocate_first_fit :
    (heap : Heap) (k size : ℕ)
    → IsReady heap
    → k < 32
    → size < 2 ^ 32
    → Allocates heap
        (record { size = size; align = 2 ^ k })
        (allocate_first_fit heap (record { size = size; align = 2 ^ k }))
unfolding allocate_first_fit
heap_allocate_first_fit heap k size v hk small =
    rw (not_bootstrap, valid)
      (with_holes-Allocates heap (record { size = size; align = 2 ^ k }) _ v
        (HoleList.Take.allocate_first_fit-Allocates (heap.bottom + heap.size) k (hole_size size)
          heap.holes (omega arith) (omega (arith, v.bounded, bounds, power)) (omega (arith, bounds))
          v.apart))
  where
    bounds : (size ≤ hole_size size) × (min_size ≤ hole_size size) × (hole_size size < size + 72)
    bounds = hole_size_bounds size small

    power : 2 ^ k ≤ 2 ^ 31
    power = pow_mono k 31 (omega arith)

    not_bootstrap : (heap.bottom == 0) ≡ false
    not_bootstrap = ground (arith, v.has_memory)

    valid : fits_layout (hole_size size) (2 ^ k) ≡ true
    valid = ground (arith, bounds, power)

-- What a release leaves.
abbrev pub Releases : Heap → ℕ → ℕ → Option Heap → Type 0
Releases heap address size none = ⊥
Releases heap address size (some heap') =
    IsReady heap'
    × ((x : ℕ) → covers heap'.holes x ≡ (covers heap.holes x || within address size x))

set_holes-Releases :
    (heap : Heap) (address size : ℕ) (r : Option (List HoleInfo))
    → IsReady heap
    → GivesBack (heap.bottom + heap.size) heap.holes (hole address size) r
    → Releases heap address size (set_holes heap r)
set_holes-Releases heap address size none v g = g
set_holes-Releases heap address size (some holes) v g =
    (record { has_memory = v.has_memory; bounded = v.bounded; apart = g.0 }, g.1)

-- `Heap::deallocate` of a block in use inside the heap, above the kernel image, never panics and
-- makes exactly the block free.
pub heap_deallocate :
    (heap : Heap) (kernel_end address k size : ℕ)
    → IsReady heap
    → k < 32
    → size < 2 ^ 32
    → kernel_end ≤ address
    → 0 < address
    → address + hole_size size ≤ heap.bottom + heap.size
    → ((x : ℕ) → within address (hole_size size) x ≡ true → covers heap.holes x ≡ false)
    → Releases heap address
        (hole_size size)
        (deallocate kernel_end heap address (record { size = size; align = 2 ^ k }))
unfolding deallocate
heap_deallocate heap kernel_end address k size v hk small above pos fits unused =
    rw (own, valid)
      (set_holes-Releases heap address (hole_size size) _ v (
        give_back-GivesBack (heap.bottom + heap.size) heap.holes (hole address (hole_size size))
          (omega (arith, v.bounded)) v.apart pos (omega (arith, bounds)) fits unused))
  where
    bounds : (size ≤ hole_size size) × (min_size ≤ hole_size size) × (hole_size size < size + 72)
    bounds = hole_size_bounds size small

    power : 2 ^ k ≤ 2 ^ 31
    power = pow_mono k 31 (omega arith)

    own : leb kernel_end address ≡ true
    own = ground arith

    valid : fits_layout (hole_size size) (2 ^ k) ≡ true
    valid = ground (arith, bounds, power)
