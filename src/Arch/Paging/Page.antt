-- ===== src/Arch/Paging/Page.antt =====
-- `PageSize`, `Page` and `PageIter` of paging.rs. A page is its virtual address. `none` is a failed
-- assertion; `gib_pages` says whether the processor supports pages of 1 GiB.
use libhermit_mpk.Prelude.{
  ℕ, ◌*◌, ◌/◌, ◌%◌, ◌^◌, Bool, ◌||◌, Option, none, some, ltb, leb, ◌==◌, if◌then◌else◌, ◌>>=◌, ◌>>◌,
  require, add64, sub64, bit_and, align_down, u64_mod,
}
use libhermit_mpk.Arch.PhysicalMem.{base_page_size}
use libhermit_mpk.Arch.Paging.Entry.{large_page_size, huge_page}

pub data PageSize : Type 0 where
  base_page large_page gib_page : PageSize

abbrev pub size_of : PageSize → ℕ
size_of PageSize.base_page = base_page_size
size_of PageSize.large_page = large_page_size
size_of PageSize.gib_page = 1073741824

abbrev pub map_level : PageSize → ℕ
map_level PageSize.base_page = 0
map_level PageSize.large_page = 1
map_level PageSize.gib_page = 2

abbrev pub map_extra_flag : PageSize → ℕ
map_extra_flag PageSize.base_page = 0
map_extra_flag PageSize.large_page = huge_page
map_extra_flag PageSize.gib_page = huge_page

-- Bits 48 and up repeat bit 47.
unfoldable pub is_valid_address : ℕ → Bool
is_valid_address virtual_address =
    ltb virtual_address 0x800000000000 || leb 0xffff800000000000 virtual_address

unfoldable pub including_address : Bool → PageSize → ℕ → Option ℕ
unfolding is_valid_address
including_address gib_pages size virtual_address = do
  require (is_valid_address virtual_address)
  require (if size_of size == 1073741824 then gib_pages else Bool.true)
  some (align_down virtual_address (size_of size))

-- The first and the last page of an iteration.
unfoldable pub range : ℕ → ℕ → Option (ℕ × ℕ)
range first last = do require (leb first last); some (first, last)

-- The page that the iterator yields, and its new current page.
unfoldable pub next : PageSize → ℕ → ℕ → Option (ℕ × ℕ)
next size current last =
    if leb current last then some (current, add64 current (size_of size)) else none

unfoldable pub table_index : PageSize → ℕ → ℕ → Option ℕ
table_index size level page = do
  require (leb (map_level size) level)
  some (bit_and (page / 2 ^ 12 / 2 ^ (level * 9)) 0x1ff)

unfoldable pub get_page_range : Bool → PageSize → ℕ → ℕ → Option (ℕ × ℕ)
unfolding including_address range
get_page_range gib_pages size virtual_address count = do
  first_page ← including_address gib_pages size virtual_address
  last_page ←
      including_address gib_pages size
        (add64 virtual_address (sub64 count 1 * size_of size % u64_mod))
  range first_page last_page
