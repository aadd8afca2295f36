-- ===== src/Arch/VirtualMem.antt =====
-- src/arch/x86_64/mm/virtualmem.rs: the free list of kernel addresses. `none` is a failed
-- assertion. The end of the kernel heap depends on the feature `newlib`.
use libhermit_mpk.Prelude.{
  ℕ, ◌%◌, Bool, ◌&&◌, Option, none, some, [], ◌∷◌, ◌++◌, ltb, leb, ◌==◌, if◌then◌else◌,
}
use libhermit_mpk.Mm.FreeList
use libhermit_mpk.Mm.FreeList.{FreeList, entry}
use libhermit_mpk.Arch.PhysicalMem.{base_page_size}

abbrev pub kernel_heap_end : Bool → ℕ
kernel_heap_end newlib = if newlib then 0x100000000 else 0x800000000000

unfoldable pub init : Bool → ℕ → FreeList → FreeList
init newlib kernel_end list = list ++ entry kernel_end (kernel_heap_end newlib) ∷ []

unfoldable pub allocate : FreeList → ℕ → Option (Option ℕ × FreeList)
allocate list size =
    if ltb 0 size && size % base_page_size == 0 then some (FreeList.allocate list size) else none

unfoldable pub allocate_aligned : FreeList → ℕ → ℕ → Option (Option ℕ × FreeList)
allocate_aligned list size alignment =
    if ltb 0 size && ltb 0 alignment && size % alignment == 0 && alignment % base_page_size == 0
    then some (FreeList.allocate_aligned list size alignment)
    else none

-- The assertions on a block that is given back or reserved.
abbrev pub is_heap_block : Bool → ℕ → ℕ → ℕ → Bool
is_heap_block newlib kernel_end virtual_address size =
    leb kernel_end virtual_address
    && ltb virtual_address (kernel_heap_end newlib)
    && virtual_address % base_page_size == 0
    && ltb 0 size
    && size % base_page_size == 0

unfoldable pub deallocate : Bool → ℕ → FreeList → ℕ → ℕ → Option FreeList
deallocate newlib kernel_end list virtual_address size =
    if is_heap_block newlib kernel_end virtual_address size
    then some (FreeList.deallocate list virtual_address size)
    else none

unfoldable pub reserve : Bool → ℕ → FreeList → ℕ → ℕ → Option FreeList
reserve newlib kernel_end list virtual_address size =
    if is_heap_block newlib kernel_end virtual_address size
    then FreeList.reserve list virtual_address size
    else none
