-- ===== src/Arch/Paging.antt =====
-- src/arch/x86_64/mm/paging.rs: page tables and the walk through them.
-- The tables are seen through the recursive mapping: `memory` holds the words by their virtual
-- addresses. Setting an entry of a table makes a new table visible, whose contents the code clears
-- before it reads them. `none` is a failed assertion or a panic. A level of the tables is its
-- number, from 0 for PT to 3 for PML4. Of `invlpg` and of the interrupt to the other cores the
-- pages and the number are kept.
pub mod Entry
pub mod Page
pub mod Calls
pub mod Slots
pub mod Walks
pub mod Tables
pub mod Maps
pub mod Ranges
pub mod Loop
pub mod Mapping
pub mod Words
pub mod Translate
pub mod Keys
pub mod Rekey
pub mod Pkeys
pub mod Sets
mod Tests
use libhermit_mpk.Prelude.{
  ℕ, zero, suc, ◌*◌, ◌/◌, ◌%◌, ◌^◌, Bool, true, false, not, ◌&&◌, ◌||◌, Option, none, some, List,
  ◌∷◌, ltb, leb, ◌==◌, if◌then◌else◌, ◌>>=◌, ◌>>◌, require, add64, sub64, bit_and, bit_or, not64,
  u64_mod,
}
use libhermit_mpk.Mm.FreeList.{FreeList}
use libhermit_mpk.Arch.PhysicalMem.{allocate, base_page_size}
use Entry.{address, get_flags, is_present, has_flag, set, with_pkey, dirty, writable_flag}
use Entry.{huge_page, user_accessible, execute_disable_flag, key_mask, shift_key, insert}
use Entry.{execute_disable, read_only, normal, pkey}
use Page.{PageSize, size_of, map_level, map_extra_flag, including_address, range, next, table_index}
use Page.{get_page_range}

pub record Cpu : Type 0 where
  pub gib_pages : Bool
  pub width : ℕ

abbrev pub Memory : Type 0
Memory = ℕ → ℕ

pub record Machine : Type 0 where
  pub memory : Memory
  pub frames : FreeList
  pub flushed : List ℕ
  pub ipis : ℕ

abbrev pub pml4_address : ℕ
pml4_address = 0xfffffffffffff000

abbrev pub write : Memory → ℕ → ℕ → Memory
write memory a v b = if a == b then v else memory b

abbrev pub entry_at : ℕ → ℕ → ℕ
entry_at table index = add64 table (index * 8)

abbrev pub flush_if : Bool → ℕ → Machine → Machine
flush_if flush page m = if flush then record m { flushed = page ∷ m.flushed } else m

unfoldable pub subtable : PageSize → ℕ → ℕ → ℕ → Option ℕ
unfolding table_index
subtable size level table page = do
  require (ltb (map_level size) level)
  index ← table_index size level page
  some (bit_or (table * 2 ^ 9 % u64_mod) (index * 2 ^ 12 % u64_mod))

unfoldable pub map_page_in_this_table :
    Cpu → PageSize → ℕ → ℕ → ℕ → ℕ → ℕ → Machine → Option (Bool × Machine)
map_page_in_this_table cpu size level table page physical_address flags m = do
  require (level == map_level size)
  index ← table_index size level page
  let flush = is_present (m.memory (entry_at table index))
  word ← set cpu.width physical_address (bit_or (bit_or dirty (map_extra_flag size)) flags)
  some (
    flush,
    flush_if flush page (record m { memory = write m.memory (entry_at table index) word }),
  )

-- The entry, or `none` within if it is not present.
unfoldable pub walk : PageSize → ℕ → ℕ → ℕ → Memory → Option (Option ℕ)
walk size zero table page memory = do
  require (0 == map_level size)
  index ← table_index size 0 page
  let word = memory (entry_at table index)
  some (if is_present word then some word else none)
walk size (suc level) table page memory = do
  require (leb (map_level size) (suc level))
  index ← table_index size (suc level) page
  let word = memory (entry_at table index)
  (if is_present word
      then (if ltb (map_level size) (suc level)
          then (subtable size (suc level) table page >>= λ t. walk size level t page memory)
          else some (some word))
      else some none)

-- `set_page_table_entry` and `set_pkey_on_page_table_entry` of a table: the same walk, with the
-- word that they write.
unfoldable pub change : (ℕ → ℕ) → PageSize → ℕ → ℕ → ℕ → Machine → Option Machine
change new size zero table page m = do
  require (0 == map_level size)
  index ← table_index size 0 page
  let a = entry_at table index
  require (is_present (m.memory a))
  some (flush_if true page (record m { memory = write m.memory a (new (m.memory a)) }))
change new size (suc level) table page m = do
  require (leb (map_level size) (suc level))
  index ← table_index size (suc level) page
  let a = entry_at table index
  require (is_present (m.memory a))
  (if ltb (map_level size) (suc level)
      then (subtable size (suc level) table page >>= λ t. change new size level t page m)
      else some (flush_if true page (record m { memory = write m.memory a (new (m.memory a)) })))

-- The loop that clears a new table: `n` entries from the address on.
unfoldable pub clear : ℕ → ℕ → Memory → Memory
clear zero a memory = memory
clear (suc n) a memory = clear n (add64 a 8) (write memory a 0)

-- What happens before the descent if there is no table yet.
unfoldable pub create_table : Cpu → PageSize → ℕ → ℕ → ℕ → ℕ → Machine → Option Machine
create_table cpu size level table page index m = do
  (found, frames) ← allocate m.frames base_page_size
  frame ← found
  word ← set cpu.width frame writable_flag
  t ← subtable size level table page
  some (record m {
    memory = clear 512 t (write m.memory (entry_at table index) word);
    frames = frames;
  })

unfoldable pub ensure_table : Cpu → PageSize → ℕ → ℕ → ℕ → ℕ → Machine → Option Machine
ensure_table cpu size level table page index m =
    if is_present (m.memory (entry_at table index))
    then some m
    else create_table cpu size level table page index m

unfoldable pub map_page : Cpu → PageSize → ℕ → ℕ → ℕ → ℕ → ℕ → Machine → Option (Bool × Machine)
map_page cpu size zero table page physical_address flags m =
    map_page_in_this_table cpu size 0 table page physical_address flags m
map_page cpu size (suc level) table page physical_address flags m = do
  require (leb (map_level size) (suc level))
  (if ltb (map_level size) (suc level)
      then (table_index size (suc level) page >>= λ index.
          ensure_table cpu size (suc level) table page index m >>= λ m'.
          subtable size (suc level) table page >>= λ t.
          map_page cpu size level t page physical_address flags m')
      else map_page_in_this_table cpu size (suc level) table page physical_address flags m)
