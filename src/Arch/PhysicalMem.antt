-- ===== src/Arch/PhysicalMem.antt =====
-- src/arch/x86_64/mm/physicalmem.rs: the free list of page frames. `none` is a failed assertion, and
-- `none` within the result is `Err(())`. A region of the Multiboot memory map is what the crate
-- `multiboot` reports; `kernel_start` and `kernel_end` are the addresses of mm/mod.rs.
use libhermit_mpk.Prelude.{
  ℕ, ◌%◌, Bool, ◌&&◌, Option, none, some, List, [], ◌∷◌, ◌++◌, ltb, leb, ◌==◌, if◌then◌else◌, add64,
}
use libhermit_mpk.Mm.FreeList
use libhermit_mpk.Mm.FreeList.{FreeList, entry}

abbrev pub base_page_size : ℕ
base_page_size = 4096

pub record MemoryRegion : Type 0 where
  pub available : Bool
  pub base_address : ℕ
  pub length : ℕ

pub record PhysicalMem : Type 0 where
  pub free_list : FreeList
  pub total_memory : ℕ

abbrev pub region_end : MemoryRegion → ℕ
region_end m = add64 m.base_address m.length

-- The regions that the filter keeps.
pub is_ram : ℕ → MemoryRegion → Bool
is_ram kernel_end m = m.available && ltb kernel_end (region_end m)

pub ram_entry : ℕ → ℕ → MemoryRegion → FreeList
ram_entry kernel_start kernel_end m =
    entry (if leb m.base_address kernel_start then kernel_end else m.base_address) (region_end m)
    ∷ []

-- The loop over the regions, and whether one of them was RAM.
pub add_regions : ℕ → ℕ → List MemoryRegion → PhysicalMem → Bool → PhysicalMem × Bool
add_regions kernel_start kernel_end [] p found_ram = (p, found_ram)
add_regions kernel_start kernel_end (m ∷ ms) p found_ram = elim (is_ram kernel_end m) [
  | Bool.true ↦
      add_regions kernel_start kernel_end ms
        (record {
          free_list = p.free_list ++ ram_entry kernel_start kernel_end m;
          total_memory = add64 p.total_memory (region_end m);
        })
        Bool.true
  | Bool.false ↦ add_regions kernel_start kernel_end ms p found_ram
]

-- `mb_info` is the memory map that the Multiboot information holds, if there is one. The result of
-- `none` within is `Err(())`.
pub detect_from_multiboot_info :
    ℕ → ℕ → Option (List MemoryRegion) → PhysicalMem → Option (Option PhysicalMem)
unfolding add_regions
detect_from_multiboot_info kernel_start kernel_end none p = some none
detect_from_multiboot_info kernel_start kernel_end (some regions) p =
    let (p', found_ram) = add_regions kernel_start kernel_end regions p Bool.false in
    if found_ram then some (some p') else none

pub detect_from_limits : ℕ → ℕ → PhysicalMem → Option PhysicalMem
detect_from_limits kernel_end limit p =
    if limit == 0
    then none
    else some
        (record { free_list = p.free_list ++ entry kernel_end limit ∷ []; total_memory = limit })

abbrev or_else_limits : ℕ → ℕ → PhysicalMem → Option (Option PhysicalMem) → Option PhysicalMem
or_else_limits kernel_end limit p none = none
or_else_limits kernel_end limit p (some (some p')) = some p'
or_else_limits kernel_end limit p (some none) = detect_from_limits kernel_end limit p

pub init : ℕ → ℕ → Option (List MemoryRegion) → ℕ → PhysicalMem → Option PhysicalMem
unfolding detect_from_multiboot_info detect_from_limits
init kernel_start kernel_end mb_info limit p =
    or_else_limits kernel_end limit p (detect_from_multiboot_info kernel_start kernel_end mb_info p)

unfoldable pub allocate : FreeList → ℕ → Option (Option ℕ × FreeList)
allocate list size =
    if ltb 0 size && size % base_page_size == 0 then some (FreeList.allocate list size) else none

unfoldable pub allocate_aligned : FreeList → ℕ → ℕ → Option (Option ℕ × FreeList)
allocate_aligned list size alignment =
    if ltb 0 size && ltb 0 alignment && size % alignment == 0 && alignment % base_page_size == 0
    then some (FreeList.allocate_aligned list size alignment)
    else none

unfoldable pub deallocate : ℕ → FreeList → ℕ → ℕ → Option FreeList
deallocate kernel_end list physical_address size =
    if leb kernel_end physical_address && ltb 0 size && size % base_page_size == 0
    then some (FreeList.deallocate list physical_address size)
    else none
