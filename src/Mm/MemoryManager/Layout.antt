-- ===== src/Mm/MemoryManager/Layout.antt =====
-- `init` of src/mm/mod.rs: how much memory is put aside for page tables, and the sizes of the heaps
-- of an application without `newlib`.
use libhermit_mpk.Prelude.{
  Bool, true, not, ltb, align_up, align_down, add64, sub64, ◌-◌, ◌^◌, ℕ, suc, ◌+◌, ◌-◌, ◌*◌, ◌/◌,
  ◌≤◌, ◌<◌, ◌≡◌, sym, arith,
}
use libhermit_mpk.Prelude.Align.{align_down-pow}
use libhermit_mpk.Arch.PhysicalMem.{base_page_size}
use libhermit_mpk.Arch.Paging.Entry.{large_page_size}

-- A table has as many entries as a page has words.
abbrev pub entries_per_table : ℕ
entries_per_table = base_page_size / 8

unfoldable pub reserved_space : ℕ → ℕ
reserved_space total_memory =
    let npages = total_memory / base_page_size in
    let npage_3tables = npages / entries_per_table + 1 in
    let npage_2tables = npage_3tables / entries_per_table + 1 in
    let npage_1tables = npage_2tables / entries_per_table + 1 in
    (npage_3tables + npage_2tables + npage_1tables) * base_page_size + large_page_size

-- The tables that `suc n` pages from page number `q` on lie in, where a table stands for `span`
-- pages.
abbrev pub tables : ℕ → ℕ → ℕ → ℕ
tables span q n = (q + n) / span - q / span + 1

third_level : (q n : ℕ) → tables 512 q n ≤ suc n / 512 + 2
third_level q n = omega arith

second_level : (q n : ℕ) → tables (512 * 512) q n ≤ suc n / 512 / 512 + 2
second_level q n = omega arith

first_level : (q n : ℕ) → tables (512 * 512 * 512) q n ≤ suc n / 512 / 512 / 512 + 2
first_level q n = omega arith

-- The space that `init` puts aside for page tables suffices for the tables of all levels below the
-- root if all of the memory, at least one page, is mapped in pages of 4 KiB, wherever the addresses
-- start.
pub reserved_space-enough :
    (total_memory q n : ℕ)
    → suc n ≡ total_memory / 4096
    → (tables 512 q n + tables (512 * 512) q n + tables (512 * 512 * 512) q n) * 4096
      ≤ reserved_space total_memory
unfolding reserved_space
reserved_space-enough total_memory q n e =
    rw (sym e) (omega (arith, third_level q n, second_level q n, first_level q n))

-- Whether `init` goes on; it stops in an endless loop otherwise.
unfoldable pub has_enough_memory : ℕ → ℕ → Bool
has_enough_memory total_memory kernel_end =
    not (ltb total_memory (add64 (add64 kernel_end (reserved_space total_memory)) large_page_size))

abbrev pub virt_size : ℕ
virt_size = 4 * large_page_size

-- `USER_HEAP_SIZE`.
unfoldable pub user_heap_size : ℕ → ℕ → ℕ
user_heap_size total_memory kernel_end =
    sub64
      (align_down (sub64 (sub64 total_memory kernel_end) (reserved_space total_memory))
        large_page_size)
      virt_size

-- The size of the kernel's own pages: `KERNEL_START_ADDRESS` and `KERNEL_END_ADDRESS`.
abbrev pub kernel_start : ℕ → ℕ
kernel_start base_address = align_down base_address large_page_size

abbrev pub kernel_end_of : ℕ → ℕ → ℕ
kernel_end_of base_address image_size = align_up (add64 base_address image_size) large_page_size

reserved_space_lt : (t : ℕ) → t < 2 ^ 62 → reserved_space t < 2 ^ 62
unfolding reserved_space
reserved_space_lt t lt = omega arith

-- The check of `init` lets pass a memory below 2 ^ 62 of which, besides the kernel and the reserved
-- space, at least one but fewer than four large pages are left. The subtraction of the kernel heap
-- of four large pages then wraps, and the size of the user heap is 2 ^ 63 or more.
pub user_heap_size-wraps :
    (total_memory kernel_end : ℕ)
    → total_memory < 2 ^ 62
    → kernel_end + reserved_space total_memory + large_page_size ≤ total_memory
    → total_memory < kernel_end + reserved_space total_memory + virt_size
    → (has_enough_memory total_memory kernel_end ≡ true)
      × (2 ^ 63 ≤ user_heap_size total_memory kernel_end)
unfolding has_enough_memory user_heap_size
user_heap_size-wraps total_memory kernel_end lt le short =
    let r = reserved_space total_memory in
    let e : sub64 (sub64 total_memory kernel_end) r ≡ total_memory - kernel_end - r = omega arith in
    let s : add64 (add64 kernel_end r) large_page_size ≡ kernel_end + r + large_page_size =
      omega arith in
    let d = align_down-pow 21 (total_memory - kernel_end - r) (omega arith) (omega arith) in
    (ground arith, rw (e, d) (omega arith))
