-- ===== src/Mm/Heap.antt =====
-- src/mm/allocator.rs: the kernel heap, with its bootstrap allocator and the hole list.
-- `first_block` is an array of the heap itself, at the address `first_block` below; a pointer is an
-- address. `kernel_end_address()` is an argument.
pub mod Bootstrap
pub mod System
pub mod Growth
mod Tests
use libhermit_mpk.Prelude.{
  ℕ, Bool, List, Option, none, some, ltb, leb, ◌==◌, ◌+◌, if◌then◌else◌, add64, align_up, u64_mod,
}
use libhermit_mpk.Mm.HoleList.{HoleInfo, hole, Layout, min_size, Outcome, give_back}
use libhermit_mpk.Mm.HoleList

abbrev pub bootstrap_heap_size : ℕ
bootstrap_heap_size = 4096

pub record Heap : Type 0 where
  pub first_block : ℕ
  pub index : ℕ
  pub bottom : ℕ
  pub size : ℕ
  pub holes : List HoleInfo

-- A call panics, reports `AllocErr`, or returns a pointer.
pub data Reply : Type 0 where
  panic : Reply
  alloc_err : Heap → Reply
  pointer : ℕ → Heap → Reply

-- `Heap::empty` and `Heap::init`; `HoleList::new` writes one hole.
pub empty : ℕ → Heap
empty block = record { first_block = block; index = 0; bottom = 0; size = 0; holes = List.[] }

pub init : Heap → ℕ → ℕ → Heap
init heap heap_bottom heap_size = record heap {
  bottom = heap_bottom;
  size = heap_size;
  holes = List.◌∷◌ (hole heap_bottom heap_size) List.[];
}

-- Indexing the array panics out of bounds; the index is moved on whether or not the block fits.
pub alloc_bootstrap : Heap → Layout → Reply
alloc_bootstrap heap layout =
    let size = align_up layout.size min_size in
    let next = align_up (add64 heap.index size) min_size in
    if leb bootstrap_heap_size heap.index
    then panic
    else if leb bootstrap_heap_size next
    then alloc_err (record heap { index = next })
    else pointer (heap.first_block + heap.index) (record heap { index = next })

-- The size of a request or a release in the hole list; `align_of::<Hole>()` is 8.
pub hole_size : ℕ → ℕ
hole_size size = align_up (if ltb size min_size then min_size else size) 8

-- `Layout::from_size_align(size, align).unwrap()`: the size, rounded up to the alignment, must fit.
abbrev pub fits_layout : ℕ → ℕ → Bool
fits_layout size align = leb (size + align) u64_mod

abbrev pub with_holes : Heap → Outcome → Reply
with_holes heap Outcome.panic = panic
with_holes heap (Outcome.alloc_err holes) = alloc_err (record heap { holes = holes })
with_holes heap (Outcome.allocated a holes) = pointer a (record heap { holes = holes })

pub allocate_first_fit : Heap → Layout → Reply
allocate_first_fit heap layout =
    let size = hole_size layout.size in
    if heap.bottom == 0
    then alloc_bootstrap heap layout
    else if fits_layout size layout.align
    then with_holes heap (HoleList.allocate_first_fit heap.holes (record layout { size = size }))
    else panic

-- The heap after a call that returns nothing; `none` is a panic.
abbrev pub set_holes : Heap → Option (List HoleInfo) → Option Heap
set_holes heap none = none
set_holes heap (some holes) = some (record heap { holes = holes })

pub deallocate : ℕ → Heap → ℕ → Layout → Option Heap
deallocate kernel_end heap address layout =
    let size = hole_size layout.size in
    if leb kernel_end address
    then (if fits_layout size layout.align
        then set_holes heap (give_back heap.holes (hole address size))
        else none)
    else some heap

abbrev pub top : Heap → ℕ
top heap = add64 heap.bottom heap.size

abbrev pub grow : ℕ → Option Heap → Option Heap
grow by none = none
grow by (some heap) = some (record heap { size = add64 heap.size by })

pub extend : Heap → ℕ → Option Heap
extend heap by = grow by (set_holes heap (give_back heap.holes (hole (top heap) by)))
