-- ===== src/Mm/Heap/Growth.antt =====
-- `Heap::extend`, and a request followed by its release.
use libhermit_mpk.Mm.Heap.{allocate_first_fit, hole_size}
use libhermit_mpk.Mm.Heap.System.{
  Allocates, IsReady, Releases, heap_allocate_first_fit, heap_deallocate, hole_size_bounds,
}
use libhermit_mpk.Prelude.{
  ℕ, ◌+◌, ◌-◌, ◌^◌, ◌≤◌, ◌<◌, ◌≡◌, refl, true, not, ◌&&◌, ◌||◌, Option, none, some, List, arith,
}
use libhermit_mpk.Mm.HoleList.{HoleInfo, hole, Layout, min_size}
use libhermit_mpk.Mm.HoleList.Holes.{
  within, covers, IsApart, IsApart-raise, covers-above, covers-below,
}
use libhermit_mpk.Mm.HoleList.Take.{GivesBack, give_back-GivesBack}
use libhermit_mpk.Mm.Heap.{
  Heap, Reply, panic, alloc_err, pointer, set_holes, grow, top, deallocate, extend,
}

-- What growth by `by` bytes leaves: the heap ends `by` bytes further, and those bytes are free.
abbrev pub Extends : Heap → ℕ → Option Heap → Type 0
Extends heap by none = ⊥
Extends heap by (some heap') =
    (heap'.bottom ≡ heap.bottom)
    × (heap'.size ≡ heap.size + by)
    × IsApart 0 (heap.bottom + heap.size + by) heap'.holes
    × ((x : ℕ)
        → covers heap'.holes x ≡ (covers heap.holes x || within (heap.bottom + heap.size) by x))

set_holes-Extends :
    (heap : Heap) (by : ℕ) (r : Option (List HoleInfo))
    → IsReady heap
    → by < 2 ^ 34
    → GivesBack (heap.bottom + heap.size + by) heap.holes (hole (heap.bottom + heap.size) by) r
    → Extends heap by (grow by (set_holes heap r))
set_holes-Extends heap by none v small g = g
set_holes-Extends heap by (some holes) v small g = (refl, omega (arith, v.bounded), g.0, g.1)

-- Growing a ready heap by at least the least size never panics, moves its end up by exactly that
-- size, makes the new bytes free and changes nothing else.
pub extend-Extends :
    (heap : Heap) (by : ℕ)
    → IsReady heap
    → min_size ≤ by
    → by < 2 ^ 34
    → Extends heap by (extend heap by)
unfolding extend
extend-Extends heap by v big small =
    let end : top heap ≡ heap.bottom + heap.size = omega (arith, v.bounded) in
    rw end (
      set_holes-Extends heap by _ v small (
        give_back-GivesBack (heap.bottom + heap.size + by) heap.holes
          (hole (heap.bottom + heap.size) by) (omega (arith, v.bounded))
          (IsApart-raise 0 (heap.bottom + heap.size) _ heap.holes (omega arith) v.apart)
          (omega (arith, v.has_memory)) big (omega arith)
          (λ x w. covers-above 0 (heap.bottom + heap.size) x heap.holes v.apart (ground arith))))

-- The heap has the same free addresses as `heap`.
abbrev pub Restores : Heap → Option Heap → Type 0
Restores heap none = ⊥
Restores heap (some heap') = IsReady heap' × ((x : ℕ) → covers heap'.holes x ≡ covers heap.holes x)

-- A returned pointer is freed again; what fails leaves the heap.
abbrev pub RoundTrip : ℕ → Heap → Layout → Reply → Type 0
RoundTrip kernel_end heap layout panic = ⊥
RoundTrip kernel_end heap layout (alloc_err heap') = heap' ≡ heap
RoundTrip kernel_end heap layout (pointer p heap') =
    Restores heap (deallocate kernel_end heap' p layout)

Restores-of_Releases :
    (heap heap' : Heap) (p size : ℕ) (r : Option Heap)
    → ((x : ℕ) → within p size x ≡ true → covers heap.holes x ≡ true)
    → ((x : ℕ) → covers heap'.holes x ≡ (covers heap.holes x && not (within p size x)))
    → Releases heap' p size r
    → Restores heap r
Restores-of_Releases heap heap' p size none was left g = g
Restores-of_Releases heap heap' p size (some heap'') was left g =
    (g.0, λ x. ground (arith, g.1 x, left x, was x))

RoundTrip-reply :
    (heap : Heap) (kernel_end k size : ℕ) (r : Reply)
    → IsReady heap
    → k < 32
    → size < 2 ^ 32
    → ((x : ℕ) → covers heap.holes x ≡ true → kernel_end ≤ x)
    → Allocates heap (record { size = size; align = 2 ^ k }) r
    → RoundTrip kernel_end heap (record { size = size; align = 2 ^ k }) r
RoundTrip-reply heap kernel_end k size panic v hk small above a = a
RoundTrip-reply heap kernel_end k size (alloc_err heap') v hk small above a = a
RoundTrip-reply heap kernel_end k size (pointer p heap') v hk small above
      (al, same, v', was, left) =
    Restores-of_Releases heap heap' p (hole_size size) _ was left (
      heap_deallocate heap' kernel_end p k size v' hk small (above p first)
        (ground (arith, first, covers-below 0 (heap.bottom + heap.size) p heap.holes v.apart))
        (ground (
          arith,
          last,
          covers-above 0 (heap.bottom + heap.size) (p + hole_size size - 1) heap.holes v.apart,
        ))
        (λ x w. ground (arith, left x)))
  where
    bounds : (size ≤ hole_size size) × (min_size ≤ hole_size size) × (hole_size size < size + 72)
    bounds = hole_size_bounds size small

    first : covers heap.holes p ≡ true
    first = was p (ground (arith, bounds))

    last : covers heap.holes (p + hole_size size - 1) ≡ true
    last = was (p + hole_size size - 1) (ground (arith, bounds))

-- On a ready heap above the kernel image, a request of less than 2 ^ 32 bytes with an alignment that is
-- a power of two up to 2 ^ 31, followed by the release of its pointer, leaves exactly the addresses
-- free that were free before; such a request that fails changes nothing, and neither call panics.
pub heap-RoundTrip :
    (heap : Heap) (kernel_end k size : ℕ)
    → IsReady heap
    → k < 32
    → size < 2 ^ 32
    → ((x : ℕ) → covers heap.holes x ≡ true → kernel_end ≤ x)
    → RoundTrip kernel_end heap
        (record { size = size; align = 2 ^ k })
        (allocate_first_fit heap (record { size = size; align = 2 ^ k }))
heap-RoundTrip heap kernel_end k size v hk small above =
    RoundTrip-reply heap kernel_end k size _ v hk small above
      (heap_allocate_first_fit heap k size v hk small)
