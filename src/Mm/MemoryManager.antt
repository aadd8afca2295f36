-- ===== src/Mm/MemoryManager.antt =====
-- src/mm/mod.rs: the memory manager on top of the managers of physical and virtual memory and the
-- page tables. The page frames are those of the machine, from which `map` takes the frames of new
-- tables; `addresses` is the free list of virtual memory. `none` is a panic.
pub mod Allocated
pub mod Layout
mod Tests
use libhermit_mpk.Prelude.{
  ℕ, zero, suc, ◌+◌, ◌*◌, ◌/◌, Bool, false, Option, none, some, ltb, ◌==◌, if◌then◌else◌, ◌>>=◌,
  align_up, align_down, add64, sub64,
}
use libhermit_mpk.Mm.FreeList.{FreeList}
use libhermit_mpk.Arch.PhysicalMem.{base_page_size}
use libhermit_mpk.Arch.PhysicalMem as physicalmem
use libhermit_mpk.Arch.VirtualMem as virtualmem
use libhermit_mpk.Arch.Paging.{Cpu, Machine}
use libhermit_mpk.Arch.Paging.Entry.{
  address, normal, writable, execute_disable, pkey, large_page_size,
}
use libhermit_mpk.Arch.Paging.Page.{PageSize, size_of}
use libhermit_mpk.Arch.Paging.Calls.{map, get_page_table_entry, set_pkey_on_page_table_entry}

abbrev pub safe_mem_region : ℕ
safe_mem_region = 1

abbrev pub unsafe_mem_region : ℕ
unsafe_mem_region = 2

abbrev pub shared_mem_region : ℕ
shared_mem_region = 3

pub record Manager : Type 0 where
  pub machine : Machine
  pub addresses : FreeList

abbrev pub set_frames : Manager → FreeList → Machine
set_frames m frames = record (m.machine) { frames = frames }

-- A block of frames is mapped at a block of addresses.
abbrev pub map_block :
    Cpu → ℕ → ℕ → Option ℕ × FreeList → Option ℕ × FreeList → Manager → Option (ℕ × Manager)
map_block cpu size flags (frame, frames) (page, addresses) m = do
  physical_address ← frame
  virtual_address ← page
  machine ←
      map cpu PageSize.base_page virtual_address physical_address (size / base_page_size) flags
        (set_frames m frames)
  some (virtual_address, record { machine = machine; addresses = addresses })

-- `allocate` of both managers, for `allocate` and `allocate_iomem`.
abbrev pub allocate_block : Cpu → ℕ → ℕ → Manager → Option (ℕ × Manager)
allocate_block cpu size flags m = do
  physical ← physicalmem.allocate m.machine.frames size
  virtual ← virtualmem.allocate m.addresses size
  map_block cpu size flags physical virtual m

-- `allocate_aligned` of both managers, for the other kinds of memory.
abbrev pub allocate_aligned_block : Cpu → ℕ → ℕ → Manager → Option (ℕ × Manager)
allocate_aligned_block cpu size flags m = do
  physical ← physicalmem.allocate_aligned m.machine.frames size base_page_size
  virtual ← virtualmem.allocate_aligned m.addresses size base_page_size
  map_block cpu size flags physical virtual m

-- The flags of a block, given whether its contents must not be executed.
unfoldable pub key_flags : ℕ → Bool → ℕ
key_flags key no_execute =
    let flags = pkey key (writable (normal 0)) in
    if no_execute then execute_disable flags else flags

unfoldable pub user_flags : Bool → ℕ
user_flags no_execute =
    let flags = writable (normal 0) in if no_execute then execute_disable flags else flags

unfoldable pub allocate : Cpu → ℕ → Bool → Manager → Option (ℕ × Manager)
allocate cpu sz no_execute m =
    allocate_block cpu (align_up sz base_page_size) (key_flags safe_mem_region no_execute) m

unfoldable pub allocate_iomem : Cpu → ℕ → Manager → Option (ℕ × Manager)
allocate_iomem cpu sz m =
    allocate_block cpu (align_up sz base_page_size) (execute_disable (writable (normal 0))) m

unfoldable pub unsafe_allocate : Cpu → ℕ → Bool → Manager → Option (ℕ × Manager)
unsafe_allocate cpu sz no_execute m =
    allocate_aligned_block cpu (align_up sz base_page_size) (key_flags unsafe_mem_region no_execute)
      m

unfoldable pub shared_allocate : Cpu → ℕ → Bool → Manager → Option (ℕ × Manager)
shared_allocate cpu sz no_execute m =
    allocate_aligned_block cpu (align_up sz base_page_size) (key_flags shared_mem_region no_execute)
      m

unfoldable pub user_allocate : Cpu → ℕ → Bool → Manager → Option (ℕ × Manager)
user_allocate cpu sz no_execute m =
    allocate_aligned_block cpu (align_up sz base_page_size) (user_flags no_execute) m

-- `deallocate`, which leaves the mapping. `newlib` is the feature, `kernel_end` the end of the
-- kernel.
unfoldable pub deallocate : Cpu → Bool → ℕ → ℕ → ℕ → Manager → Option Manager
deallocate cpu newlib kernel_end virtual_address sz m = do
  let size = align_up sz base_page_size
  found ← get_page_table_entry cpu PageSize.base_page virtual_address m.machine.memory
  entry ← found
  addresses ← virtualmem.deallocate newlib kernel_end m.addresses virtual_address size
  frames ← physicalmem.deallocate kernel_end m.machine.frames (address entry) size
  some (record { machine = set_frames m frames; addresses = addresses })

-- `map_heap`: the bytes that were mapped. A page is mapped in each round as long as a frame is free;
-- a failure leaves the rest unmapped. The rounds are the pages of the heap.
abbrev pub heap_flags : Bool → ℕ
heap_flags is_kernel =
    let flags = execute_disable (writable (normal 0)) in
    if is_kernel then pkey unsafe_mem_region flags else flags

unfoldable pub map_heap_from : ℕ → Cpu → PageSize → ℕ → ℕ → ℕ → Machine → Option (ℕ × Machine)
map_heap_from zero cpu size virt_addr flags i m = some (i, m)
map_heap_from (suc rounds) cpu size virt_addr flags i m = do
  (found, frames) ← physicalmem.allocate_aligned m.frames (size_of size) (size_of size)
  elim found [
    | none ↦ some (i, record m { frames = frames })
    | some phys_addr ↦
        map cpu size (add64 virt_addr i) phys_addr 1 flags (record m { frames = frames }) >>= λ m'.
        map_heap_from rounds cpu size virt_addr flags (add64 i (size_of size)) m'
  ]

unfoldable pub map_heap : Cpu → PageSize → ℕ → ℕ → Bool → Machine → Option (ℕ × Machine)
unfolding map_heap_from
map_heap cpu size virt_addr bytes is_kernel m =
    map_heap_from (align_down bytes (size_of size) / size_of size) cpu size virt_addr
      (heap_flags is_kernel) 0 m

-- The pages below the kernel, of which the first is for the application.
unfoldable pub init_pages_before_kernel : Cpu → Machine → Option Machine
init_pages_before_kernel cpu m = do
  m' ←
      map cpu PageSize.base_page 0 0 (0x200000 / base_page_size)
        (pkey safe_mem_region (execute_disable (writable (normal 0)))) m
  set_pkey_on_page_table_entry cpu PageSize.base_page 0 1 0 m'

unfoldable pub allocate_safe_data : Cpu → Machine → Option Machine
allocate_safe_data cpu m =
    map cpu PageSize.large_page 0x400000 0x400000 (0x200000 / large_page_size)
      (execute_disable (pkey safe_mem_region (writable (normal 0)))) m

unfoldable pub allocate_unsafe_data : Cpu → Machine → Option Machine
allocate_unsafe_data cpu m =
    map cpu PageSize.large_page 0x600000 0x600000 (0x200000 / large_page_size)
      (execute_disable (pkey unsafe_mem_region (writable (normal 0)))) m
