-- ===== src/Arch/Paging/Tests.antt =====
-- Page tables at concrete inputs.
use libhermit_mpk.Prelude.{
  ℕ, ◌+◌, ◌*◌, ◌<◌, ◌≡◌, refl, false, Option, some, [], ◌∷◌, arith, if◌then◌else◌, ◌==◌, ◌>>=◌,
  align_down,
}
use libhermit_mpk.Mm.FreeList
use libhermit_mpk.Mm.FreeList.{entry}
use libhermit_mpk.Arch.PhysicalMem
use libhermit_mpk.Arch.Paging.Entry.{set, is_present, address, with_pkey}
use libhermit_mpk.Arch.Paging.Page.{PageSize, next, table_index}
use libhermit_mpk.Arch.Paging.{
  Cpu, Memory, Machine, map_page, ensure_table, create_table, clear, subtable,
  map_page_in_this_table, walk,
}
use libhermit_mpk.Arch.Paging.Calls.{
  map, get_page_table_entry, get_physical_address, virtual_to_physical,
  set_pkey_on_page_table_entry,
}
use libhermit_mpk.Arch.Paging.Slots.{slot}
use libhermit_mpk.Arch.Paging.Tables.{Supplies, enough, one_more}
use libhermit_mpk.Arch.Paging.Mapping.{Mapped, map-Mapped}
use libhermit_mpk.Arch.Paging.Words.{Keyed, with_pkey-Keyed}
use libhermit_mpk.Arch.Paging.Sets.{Holds, set-Holds}
use libhermit_mpk.Arch.Paging.Translate.{get_physical_address-virtual_to_physical}
use libhermit_mpk.Arch.Paging.Pkeys.{Rekeys, set_pkey_on_page_table_entry-Rekeys}

abbrev cpu : Cpu
cpu = record { gib_pages = false; width = 36 }

abbrev machine : Machine
machine = record { memory = λ _. 0; frames = entry 0x100000 0x200000 ∷ []; flushed = []; ipis = 0 }

-- Two pages are mapped, and an address in the second is translated.
abbrev after : Option ℕ
after = do
  m ← map cpu PageSize.base_page 0x5000 0x7000 2 2 machine
  get_physical_address cpu PageSize.base_page 0x6123 m.memory

map_test : after ≡ some 0x8123
unfolding map get_physical_address align_down next map_page table_index ensure_table is_present
    create_table PhysicalMem.allocate FreeList.allocate set address clear subtable
    map_page_in_this_table
map_test = refl

supply : Supplies cpu 6 machine.frames
unfolding PhysicalMem.allocate FreeList.allocate set
supply = one_more refl refl (
    one_more refl refl
      (one_more refl refl (one_more refl refl (one_more refl refl (one_more refl refl enough)))))

map-Mapped_example :
    (m' : Machine) × (map cpu PageSize.base_page 0x5000 0x7000 2 2 machine ≡ some m')
    × Mapped cpu PageSize.base_page 0x5000 0x7000 2 2 machine m'
map-Mapped_example =
    map-Mapped cpu PageSize.base_page 0x5000 0x7000 1 2 machine refl (omega arith) tt (omega arith)
      (omega arith) (omega arith) supply

-- The tables of the address 0x5123, with a page at 0x7000.
abbrev mapped : Memory
mapped a = if a == 0xffffff8000000028 then 0x7001 else 1

found : get_page_table_entry cpu PageSize.base_page 0x5123 mapped ≡ some (some 0x7001)
unfolding get_page_table_entry align_down table_index is_present subtable
found = refl

get_physical_address-virtual_to_physical_example :
    get_physical_address cpu PageSize.base_page 0x5123 mapped
    ≡ some (virtual_to_physical 0x5123 mapped)
unfolding slot
get_physical_address-virtual_to_physical_example =
    get_physical_address-virtual_to_physical cpu 0x5123 0x7001 mapped (omega arith) (omega arith)
      found refl refl

set-Holds_example : (word : ℕ) × (set 36 0x7000 2 ≡ some word) × Holds 0x7000 2 word
unfolding address
set-Holds_example =
    set-Holds 36 0x7000 2 (omega arith) (omega arith, refl) (omega arith) (omega arith)

with_pkey-Keyed_example : Keyed 0x7001 3 (with_pkey 0x7001 3)
with_pkey-Keyed_example = with_pkey-Keyed 0x7001 3 (omega arith) (omega arith)

all_mapped :
    (j : ℕ)
    → j < 1
    → (word : ℕ) × (walk PageSize.base_page 3 0xfffffffffffff000 ((5 + j) * 4096) mapped
        ≡ some (some word))
unfolding walk align_down table_index is_present subtable
all_mapped j lt = let e : j ≡ 0 = omega arith in (0x7001, rw e refl)

set_pkey_on_page_table_entry-Rekeys_example :
    (m' : Machine) × (set_pkey_on_page_table_entry cpu PageSize.base_page 0x5000 1 3
        (record machine { memory = mapped })
      ≡ some m')
    × Rekeys cpu PageSize.base_page 3 0x5000 1 (record machine { memory = mapped }) m'
set_pkey_on_page_table_entry-Rekeys_example =
    set_pkey_on_page_table_entry-Rekeys cpu PageSize.base_page 3 (omega arith) 0x5000 1
      (record machine { memory = mapped }) tt (omega arith) all_mapped
