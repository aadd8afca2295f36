-- ===== src/Mm/MemoryManager/Allocated.antt =====
-- What `allocate` maps.
use libhermit_mpk.Prelude.TestBit.{bit-bit_or, bit_or-lt}
use libhermit_mpk.Prelude.Fields.{eq_of_bits, bit_or-shifted}
use libhermit_mpk.Prelude.{
  ◌∙◌, ap, if◌then◌else◌, bit_or, ℕ, suc, ◌+◌, ◌*◌, ◌/◌, ◌%◌, ◌^◌, ◌≤◌, ◌<◌, ◌≡◌, refl, Bool, true,
  false, Option, none, some, [], ◌∷◌, arith, align_up, ltb, ◌==◌, sub64, ◌-◌, ◌&&◌, leb, subst,
  u64_mod, Bool-cases, inl, inr,
}
use libhermit_mpk.Prelude.Bits.{pow_mono}
use libhermit_mpk.Mm.FreeList.{FreeList}
use libhermit_mpk.Mm.FreeList as free_list
use libhermit_mpk.Arch.PhysicalMem as physicalmem
use libhermit_mpk.Arch.VirtualMem as virtualmem
use libhermit_mpk.Arch.Paging.{Cpu, Machine}
use libhermit_mpk.Arch.Paging.Entry.{normal, writable, execute_disable, pkey}
use libhermit_mpk.Arch.Paging.Page.{PageSize}
use libhermit_mpk.Arch.Paging.Calls.{map, get_page_table_entry}
use libhermit_mpk.Arch.Paging.Tables.{Supplies}
use libhermit_mpk.Arch.Paging.Ranges.{entry_word, IsPlain, tables_of}
use libhermit_mpk.Arch.Paging.Mapping.{Mapped, map-Mapped}
use libhermit_mpk.Mm.FreeList.Regions.{IsSorted, Takes, within, covers-above}
use libhermit_mpk.Mm.FreeList.Allocate.{Allocates, allocate-Allocates}
use libhermit_mpk.Mm.MemoryManager.{Manager, set_frames, allocate, key_flags, safe_mem_region}

-- All regions of a free list start at a page.
abbrev pub StartsAtPages : FreeList → Type 0
StartsAtPages [] = Unit {0}
StartsAtPages (r ∷ rs) = (r.start % 4096 ≡ 0) × StartsAtPages rs

-- The block that an allocation found starts at a page.
abbrev pub AtPage : Option ℕ × FreeList → Type 0
AtPage (none, list) = Unit {0}
AtPage (some a, list) = a % 4096 ≡ 0

AtPage-cons : (a : Option ℕ) (list list' : FreeList) → AtPage (a, list) → AtPage (a, list')
AtPage-cons none list list' h = h
AtPage-cons (some a) list list' h = h

allocate-AtPage :
    (list : FreeList) (size : ℕ) → StartsAtPages list → AtPage (free_list.allocate list size)
unfolding free_list.allocate
allocate-AtPage [] size h = tt
allocate-AtPage (node ∷ rest) size h = elim (Bool-cases (ltb size (sub64 node.end node.start))) [
  | inl larger ↦ rw larger h.0
  | inr other ↦ elim (Bool-cases (sub64 node.end node.start == size)) [
    | inl exact ↦ rw (other, exact) h.0
    | inr smaller ↦ rw (other, smaller) (AtPage-cons _ _ _ (allocate-AtPage rest size h.1))
  ]
]

key_flags-IsPlain :
    (no_execute : Bool) → IsPlain PageSize.base_page (key_flags safe_mem_region no_execute)
unfolding key_flags normal writable execute_disable pkey
key_flags-IsPlain true = refl
key_flags-IsPlain false = refl

-- A block that was taken lies below the end of the list.
taken-le :
    (lo hi size a : ℕ) (list list' : FreeList)
    → 0 < size
    → IsSorted lo hi list
    → Takes lo hi list a (a + size) list'
    → a + size ≤ hi
taken-le lo hi size a list list' pos h t = elim (Bool-cases (leb (a + size) hi)) [
  | inl le ↦ ground arith
  | inr gt ↦
      let last : within a (a + size) (a + size - 1) ≡ true = ground arith in
      let free = t.was_free (a + size - 1) last in
      let out = covers-above lo hi (a + size - 1) list h (ground arith) in ground arith
]

-- A block of a free list that is found, with the list that is left.
record Found (lo hi size a : ℕ) (list list' : FreeList) : Type 0 where
  takes : Takes lo hi list a (a + size) list'
  page : a % 4096 ≡ 0
  le : a + size ≤ hi

allocate-Found :
    (lo hi size a : ℕ) (list list' : FreeList)
    → hi < u64_mod
    → 0 < size
    → IsSorted lo hi list
    → StartsAtPages list
    → free_list.allocate list size ≡ (some a, list')
    → Found lo hi size a list list'
allocate-Found lo hi size a list list' small pos h pages e =
    let t : Takes lo hi list a (a + size) list' =
      subst (λ r. Allocates lo hi list size r) e (allocate-Allocates lo hi size list small pos h) in
    record {
      takes = t;
      page = subst (λ r. AtPage r) e (allocate-AtPage list size pages);
      le = taken-le lo hi size a list list' pos h t;
    }

-- The flags that a block of safe memory is mapped with: WRITABLE, the key 1, and EXECUTE_DISABLE if
-- asked for.
abbrev pub block_flags : Bool → ℕ
block_flags no_execute = if no_execute then 0x8800000000000002 else 0x800000000000002

-- What an entry of such a page has besides the frame: PRESENT, WRITABLE, USER_ACCESSIBLE, ACCESSED,
-- DIRTY, the key 1, and EXECUTE_DISABLE if asked for.
abbrev pub page_bits : Bool → ℕ
page_bits no_execute = if no_execute then 0x8800000000000067 else 0x800000000000067

-- The frames and the addresses are taken from the free lists, and the pages are mapped.
pub record Allocated (cpu : Cpu) (n : ℕ) (no_execute : Bool) (lo hi lo' hi' pa va : ℕ) (m : Manager)
    (frames' addresses' : FreeList) (m' : Manager) : Type 0 where
  pub frames : Takes lo hi m.machine.frames pa (pa + n * 4096) frames'
  pub addresses : Takes lo' hi' m.addresses va (va + n * 4096) addresses'
  pub left : m'.addresses ≡ addresses'
  pub mapped :
      Mapped cpu PageSize.base_page va pa n
        (block_flags no_execute)
        (set_frames m frames')
        m'.machine
  pub pages :
      (va' : ℕ)
      → va ≤ va'
      → va' < va + n * 4096
      → get_page_table_entry cpu PageSize.base_page va' m'.machine.memory
        ≡ some (some (pa + (va' - va) / 4096 * 4096 + page_bits no_execute))

block_flags-eq : (no_execute : Bool) → key_flags safe_mem_region no_execute ≡ block_flags no_execute
unfolding key_flags normal writable execute_disable pkey
block_flags-eq true = refl
block_flags-eq false = refl

-- Three fields that do not meet are added by `|`.
join_fields :
    (pa high low : ℕ)
    → pa % 4096 ≡ 0
    → pa < 2 ^ 59
    → high < 32
    → low < 4096
    → bit_or pa (bit_or (high * 2 ^ 59) low) ≡ pa + (high * 2 ^ 59 + low)
join_fields pa high low whole fits hh hl =
    let small : bit_or pa (bit_or (high * 2 ^ 59) low) < 2 ^ 64 =
      bit_or-lt 64 pa (bit_or (high * 2 ^ 59) low) (omega arith)
        (bit_or-lt 64 (high * 2 ^ 59) low (omega arith) (omega arith)) in
    let small' : bit_or (bit_or (high * 2 ^ 59) pa) low < 2 ^ 64 =
      bit_or-lt 64 (bit_or (high * 2 ^ 59) pa) low
        (bit_or-lt 64 (high * 2 ^ 59) pa (omega arith) (omega arith)) (omega arith) in
    let block : high * 2 ^ 59 + pa ≡ (high * 2 ^ 47 + pa / 4096) * 2 ^ 12 = omega arith in
    eq_of_bits 64 (bit_or pa (bit_or (high * 2 ^ 59) low)) (bit_or (bit_or (high * 2 ^ 59) pa) low)
      small small'
      (λ i lt. ground (
        arith,
        bit-bit_or i pa (bit_or (high * 2 ^ 59) low),
        bit-bit_or i (high * 2 ^ 59) low,
        bit-bit_or i (bit_or (high * 2 ^ 59) pa) low,
        bit-bit_or i (high * 2 ^ 59) pa,
      ))
    ∙ ap (λ t. bit_or t low) (bit_or-shifted 59 high pa fits ∙ block)
    ∙ bit_or-shifted 12 (high * 2 ^ 47 + pa / 4096) low hl
    ∙ omega arith

entry-eq :
    (no_execute : Bool) (pa : ℕ)
    → pa % 4096 ≡ 0
    → pa < 2 ^ 59
    → entry_word PageSize.base_page pa (block_flags no_execute) ≡ pa + page_bits no_execute
entry-eq true pa whole fits = join_fields pa 17 0x67 whole fits (omega arith) (omega arith)
entry-eq false pa whole fits = join_fields pa 1 0x67 whole fits (omega arith) (omega arith)

-- The lookup of an address in the block.
page-eq :
    (cpu : Cpu) (n : ℕ) (no_execute : Bool) (pa va : ℕ) (m m' : Machine)
    → Mapped cpu PageSize.base_page va pa n (block_flags no_execute) m m'
    → pa % 4096 ≡ 0
    → va % 4096 ≡ 0
    → pa + n * 4096 ≤ 2 ^ 59
    → va + n * 4096 ≤ 2 ^ 47
    → (va' : ℕ) → va ≤ va'
    → va' < va + n * 4096
    → get_page_table_entry cpu PageSize.base_page va' m'.memory
      ≡ some (some (pa + (va' - va) / 4096 * 4096 + page_bits no_execute))
page-eq cpu n no_execute pa va m m' d whole page fits low va' ge lt =
    let inside : (leb (va / 4096) (va' / 4096) && ltb (va' / 4096) (va / 4096 + n)) ≡ true =
      ground arith in
    let frame : va' / 4096 - va / 4096 ≡ (va' - va) / 4096 = omega arith in
    d.entries va' (omega arith)
    ∙ rw (inside, frame)
        (ap (λ w. some (some w))
          (entry-eq no_execute (pa + (va' - va) / 4096 * 4096) (omega arith) (omega arith)))

-- How `allocate` runs when its parts succeed.
allocate_run :
    (cpu : Cpu) (sz n : ℕ) (no_execute : Bool) (m : Manager) (pa va : ℕ)
    (frames' addresses' : FreeList) (machine : Machine)
    → align_up sz 4096 ≡ suc n * 4096
    → free_list.allocate m.machine.frames (suc n * 4096) ≡ (some pa, frames')
    → free_list.allocate m.addresses (suc n * 4096) ≡ (some va, addresses')
    → map cpu PageSize.base_page va pa
        (suc n)
        (key_flags safe_mem_region no_execute)
        (set_frames m frames')
      ≡ some machine
    → allocate cpu sz no_execute m ≡ some (va, record { machine = machine; addresses = addresses' })
unfolding allocate physicalmem.allocate virtualmem.allocate
allocate_run cpu sz n no_execute m pa va frames' addresses' machine size e e' lem =
    let ok : (ltb 0 (suc n * 4096) && (suc n * 4096 % 4096 == 0)) ≡ true = ground arith in
    let count : suc n * 4096 / 4096 ≡ suc n = omega arith in rw (size, ok, e, e', count, lem) refl

-- For at least one page, free lists in order whose regions start at pages, frames within the width
-- of the processor, of at most 59 bits, and addresses below 2 ^ 47: if both lists have a block, and
-- the frames that are left suffice for the tables that may be missing, `allocate` returns the block
-- of addresses. Both blocks are taken from their lists. A lookup of an address in the block finds its
-- frame, writable, with the key 1 of safe memory, and with EXECUTE_DISABLE exactly if asked for; a
-- lookup of any other address below 2 ^ 47 finds what it found before.
pub allocate-Allocated :
    (cpu : Cpu) (sz n : ℕ) (no_execute : Bool) (m : Manager) (lo hi lo' hi' pa va : ℕ)
    (frames' addresses' : FreeList)
    → align_up sz 4096 ≡ suc n * 4096
    → cpu.width ≤ 59
    → IsSorted lo hi m.machine.frames
    → StartsAtPages m.machine.frames
    → hi ≤ 2 ^ cpu.width
    → IsSorted lo' hi' m.addresses
    → StartsAtPages m.addresses
    → hi' ≤ 2 ^ 47
    → free_list.allocate m.machine.frames (suc n * 4096) ≡ (some pa, frames')
    → free_list.allocate m.addresses (suc n * 4096) ≡ (some va, addresses')
    → Supplies cpu (suc n * tables_of PageSize.base_page) frames'
    → (m' : Manager) × (allocate cpu sz no_execute m ≡ some (va, m'))
      × Allocated cpu (suc n) no_execute lo hi lo' hi' pa va m frames' addresses' m'
allocate-Allocated cpu sz n no_execute m lo hi lo' hi' pa va frames' addresses' size narrow h pages
      wide h' pages' low e e' s =
    let small : hi < u64_mod = omega (arith, pow_mono cpu.width 59 narrow) in
    let f =
      allocate-Found lo hi (suc n * 4096) pa m.machine.frames frames' small (omega arith) h pages
        e in
    let f' =
      allocate-Found lo' hi' (suc n * 4096) va m.addresses addresses' (omega arith) (omega arith) h'
        pages' e' in
    let (machine, lem, mapped) =
      map-Mapped cpu PageSize.base_page va pa n (key_flags safe_mem_region no_execute)
        (set_frames m frames') (key_flags-IsPlain no_execute) (omega (arith, narrow)) tt
        (omega (arith, f'.le, f'.page)) f.page (omega (arith, f.le)) s in
    let mapped' =
      subst
        (λ flags. Mapped cpu PageSize.base_page va pa (suc n) flags (set_frames m frames') machine)
        (block_flags-eq no_execute) mapped in
    (
      record { machine = machine; addresses = addresses' },
      allocate_run cpu sz n no_execute m pa va frames' addresses' machine size e e' lem,
      record {
        frames = f.takes;
        addresses = f'.takes;
        left = refl;
        mapped = mapped';
        pages =
            page-eq cpu (suc n) no_execute pa va (set_frames m frames') machine mapped' f.page
              f'.page (omega (arith, f.le, pow_mono cpu.width 59 narrow)) (omega (arith, f'.le));
      },
    )
