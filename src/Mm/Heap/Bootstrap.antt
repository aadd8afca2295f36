-- ===== src/Mm/Heap/Bootstrap.antt =====
-- The bootstrap allocator: blocks from a fixed array, one behind the other.
use libhermit_mpk.Prelude.{◌+◌, ◌%◌, ◌^◌, ◌≤◌, ◌<◌, ◌≡◌, arith, add64, align_up}
use libhermit_mpk.Prelude.Align.{AlignsUp, align_up-pow}
use libhermit_mpk.Mm.HoleList.{Layout, min_size}
use libhermit_mpk.Mm.Heap.{
  Heap, Reply, panic, alloc_err, pointer, bootstrap_heap_size, alloc_bootstrap,
}

-- The block lies in the array from the old index on, and the next block starts behind it.
abbrev pub Bootstraps : Heap → Layout → Reply → Type 0
Bootstraps heap layout panic = ⊥
Bootstraps heap layout (alloc_err heap') = bootstrap_heap_size ≤ heap'.index
Bootstraps heap layout (pointer p heap') =
    (p ≡ heap.first_block + heap.index)
    × (heap.index + layout.size ≤ heap'.index)
    × (heap'.index < bootstrap_heap_size)
    × (heap'.index % min_size ≡ 0)

-- As long as the index is in the array, a request returns a block of the array that no later
-- request returns, or an error that leaves the index outside the array.
pub alloc_bootstrap-Bootstraps :
    (heap : Heap) (layout : Layout)
    → heap.index < bootstrap_heap_size
    → layout.size < 2 ^ 63
    → Bootstraps heap layout (alloc_bootstrap heap layout)
unfolding alloc_bootstrap
alloc_bootstrap-Bootstraps heap layout small fits = ground (arith, size_up, next_up, no_wrap)
  where
    size_up : AlignsUp layout.size min_size (align_up layout.size min_size)
    size_up = align_up-pow 6 layout.size (omega arith) (omega arith)

    no_wrap :
        add64 heap.index (align_up layout.size min_size)
        ≡ heap.index + align_up layout.size min_size
    no_wrap = omega (arith, size_up.near)

    next_up :
        AlignsUp
          (add64 heap.index (align_up layout.size min_size))
          min_size
          (align_up (add64 heap.index (align_up layout.size min_size)) min_size)
    next_up = align_up-pow 6 _ (omega arith) (omega (arith, no_wrap, size_up.near))

-- The request after a failed one panics: the array is indexed out of bounds.
pub alloc_bootstrap_twice :
    (heap heap' : Heap) (layout next : Layout)
    → alloc_bootstrap heap layout ≡ alloc_err heap'
    → alloc_bootstrap heap' next ≡ panic
unfolding alloc_bootstrap
alloc_bootstrap_twice heap heap' layout next e = ground arith
