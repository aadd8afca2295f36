-- ===== src/Arch/Paging/Calls.antt =====
-- The functions of paging.rs that the kernel calls, on the root table at `PML4_ADDRESS`, with the
-- loop `map_pages`. `none` is a failed assertion or a panic.
use libhermit_mpk.Prelude.{
  ℕ, zero, suc, ◌+◌, ◌-◌, ◌*◌, ◌/◌, ◌%◌, ◌^◌, Bool, false, ◌||◌, Option, none, some, ltb,
  if◌then◌else◌, ◌>>=◌, ◌>>◌, require, add64, sub64, bit_and, bit_or, not64, u64_mod,
}
use libhermit_mpk.Arch.Paging.Entry.{
  address, get_flags, has_flag, with_pkey, huge_page, user_accessible, execute_disable_flag,
  key_mask, shift_key, insert, execute_disable, read_only, normal, pkey,
}
use libhermit_mpk.Arch.Paging.Page.{
  PageSize, size_of, including_address, range, next, get_page_range,
}
use libhermit_mpk.Arch.Paging.{Cpu, Memory, Machine, pml4_address, walk, change, map_page}

-- The loop, with fuel: `none` also if it runs out. It yields whether an entry was updated.
unfoldable pub map_loop :
    ℕ → Cpu → PageSize → ℕ → ℕ → ℕ → ℕ → Bool → Machine → Option (Bool × Machine)
map_loop zero cpu size current last physical_address flags send_ipi m = none
map_loop (suc fuel) cpu size current last physical_address flags send_ipi m =
    elim (next size current last) [
      | none ↦ some (send_ipi, m)
      | some (page, current') ↦
          map_page cpu size 3 pml4_address page physical_address flags m >>= λ r.
          map_loop fuel cpu size current' last (add64 physical_address (size_of size)) flags
            (send_ipi || r.0) r.1
    ]

-- An interrupt is sent to the other cores if an entry was updated.
unfoldable pub map_pages : Cpu → PageSize → ℕ × ℕ → ℕ → ℕ → Machine → Option Machine
unfolding map_loop
map_pages cpu size (first, last) physical_address flags m = do
  (send_ipi, m') ←
      map_loop ((last - first) / size_of size + 2) cpu size first last physical_address flags false
        m
  some (if send_ipi then record m' { ipis = m'.ipis + 1 } else m')

unfoldable pub map : Cpu → PageSize → ℕ → ℕ → ℕ → ℕ → Machine → Option Machine
unfolding get_page_range map_pages
map cpu size virtual_address physical_address count flags m = do
  pages ← get_page_range cpu.gib_pages size virtual_address count
  map_pages cpu size pages physical_address flags m

unfoldable pub get_page_table_entry : Cpu → PageSize → ℕ → Memory → Option (Option ℕ)
unfolding including_address walk
get_page_table_entry cpu size virtual_address memory = do
  page ← including_address cpu.gib_pages size virtual_address
  walk size 3 pml4_address page memory

unfoldable pub set_page_table_entry : Cpu → PageSize → ℕ → ℕ → Machine → Option Machine
unfolding including_address change
set_page_table_entry cpu size virtual_address entry m = do
  page ← including_address cpu.gib_pages size virtual_address
  change (λ _. entry) size 3 pml4_address page m

-- The loop of `set_pkey_on_page_table_entry`, with the rounds left and the index.
unfoldable pub set_pkey_from : ℕ → ℕ → Cpu → PageSize → ℕ → ℕ → Machine → Option Machine
unfolding including_address change
set_pkey_from zero i cpu size virtual_address key m = some m
set_pkey_from (suc rounds) i cpu size virtual_address key m = do
  page ← including_address cpu.gib_pages size (add64 virtual_address (size_of size * i % u64_mod))
  m' ← change (λ word. with_pkey word key) size 3 pml4_address page m
  set_pkey_from rounds (suc i) cpu size virtual_address key m'

unfoldable pub set_pkey_on_page_table_entry : Cpu → PageSize → ℕ → ℕ → ℕ → Machine → Option Machine
unfolding set_pkey_from
set_pkey_on_page_table_entry cpu size virtual_address count key m =
    set_pkey_from count 0 cpu size virtual_address key m

unfoldable pub get_physical_address : Cpu → PageSize → ℕ → Memory → Option ℕ
unfolding get_page_table_entry
get_physical_address cpu size virtual_address memory = do
  found ← get_page_table_entry cpu size virtual_address memory
  word ← found
  some (bit_or (address word) (bit_and virtual_address (sub64 (size_of size) 1)))

unfoldable pub get_existing_flags : Cpu → PageSize → ℕ → Memory → Option ℕ
unfolding get_page_table_entry
get_existing_flags cpu size virtual_address memory = do
  found ← get_page_table_entry cpu size virtual_address memory
  word ← found
  some (get_flags word)

unfoldable pub set_pkey : Cpu → PageSize → ℕ → ℕ → ℕ → Machine → Option Machine
unfolding get_existing_flags get_physical_address map
set_pkey cpu size virtual_address count key m = do
  existing ← get_existing_flags cpu size virtual_address m.memory
  physical_address ← get_physical_address cpu size virtual_address m.memory
  map cpu size virtual_address physical_address count
      (insert (insert 0 (bit_or (shift_key (bit_and key 15)) existing)) user_accessible) m

-- The tables of a level as one array of words: where it starts.
abbrev pub self_map : ℕ → ℕ
self_map zero = 0xffffff8000000000
self_map (suc zero) = 0xffffffffc0000000
self_map (suc (suc i)) = 0xffffffffffe00000

abbrev pub frame_bits : ℕ → ℕ
frame_bits page_bits = bit_and (u64_mod - 2 ^ page_bits) (not64 execute_disable_flag)

-- One round of the loop of `virtual_to_physical`, and the rounds below it.
unfoldable pub translate : ℕ → ℕ → Memory → ℕ
translate zero virtual_address memory =
    let entry = memory (add64 (self_map 0) (virtual_address / 2 ^ 12 * 8 % u64_mod)) in
    bit_or (bit_and virtual_address (not64 (frame_bits 12)))
      (bit_and entry (bit_and (frame_bits 12) key_mask))
translate (suc i) virtual_address memory =
    let page_bits = 12 + suc i * 9 in
    let entry = memory (add64 (self_map (suc i)) (virtual_address / 2 ^ page_bits * 8 % u64_mod)) in
    if has_flag entry huge_page
    then bit_or (bit_and virtual_address (not64 (frame_bits page_bits)))
        (bit_and entry (bit_and (frame_bits page_bits) key_mask))
    else translate i virtual_address memory

unfoldable pub virtual_to_physical : ℕ → Memory → ℕ
unfolding translate
virtual_to_physical virtual_address memory = translate 2 virtual_address memory

unfoldable pub identity_map : Cpu → ℕ → ℕ → ℕ → Machine → Option Machine
unfolding including_address range map_pages
identity_map cpu kernel_start start_address end_address m = do
  first_page ← including_address cpu.gib_pages PageSize.base_page start_address
  last_page ← including_address cpu.gib_pages PageSize.base_page end_address
  require (ltb last_page kernel_start)
  pages ← range first_page last_page
  map_pages cpu PageSize.base_page pages first_page
      (pkey 1 (execute_disable (read_only (normal 0)))) m
