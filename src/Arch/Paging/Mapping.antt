-- ===== src/Arch/Paging/Mapping.antt =====
-- `map`: the root table as a map from page numbers to entries, of which a range is replaced.
use libhermit_mpk.Prelude.{
  ℕ, suc, ◌+◌, ◌-◌, ◌*◌, ◌/◌, ◌%◌, ◌^◌, ◌<◌, ◌≤◌, ◌≡◌, refl, ap, sym, ◌∙◌, Bool, true, false, some,
  arith, leb, ltb, if◌then◌else◌, add64, sub64, u64_mod, align_down,
}
use libhermit_mpk.Prelude.Align.{align_down-pow}
use libhermit_mpk.Arch.Paging.Page.{
  PageSize, size_of, including_address, is_valid_address, range, get_page_range,
}
use libhermit_mpk.Arch.Paging.{Cpu, Memory, Machine}
use libhermit_mpk.Arch.Paging.Calls.{map_pages, map, get_page_table_entry}
use libhermit_mpk.Arch.Paging.Slots.{IsLow}
use libhermit_mpk.Arch.Paging.Tables.{Supplies}
use libhermit_mpk.Arch.Paging.Ranges.{entry_of, updated_entry, any_mapped, IsPlain, tables_of}
use libhermit_mpk.Arch.Paging.Loop.{loop_Updates}

-- Pages of 1 GiB have to be supported.
abbrev pub Supports : Bool → PageSize → Type 0
Supports gib_pages PageSize.gib_page = gib_pages ≡ true
Supports gib_pages size = Unit {0}

page_bits : PageSize → ℕ
page_bits PageSize.base_page = 12
page_bits PageSize.large_page = 21
page_bits PageSize.gib_page = 30

rounded :
    (size : PageSize) (va : ℕ)
    → IsLow va
    → align_down va (size_of size) ≡ va / size_of size * size_of size
rounded PageSize.base_page va low = align_down-pow 12 va (omega arith) (omega arith)
rounded PageSize.large_page va low = align_down-pow 21 va (omega arith) (omega arith)
rounded PageSize.gib_page va low = align_down-pow 30 va (omega arith) (omega arith)

pub page-number :
    (gib_pages : Bool) (size : PageSize) (va : ℕ)
    → Supports gib_pages size
    → IsLow va
    → including_address gib_pages size va ≡ some (va / size_of size * size_of size)
unfolding including_address is_valid_address
page-number gib PageSize.base_page va supports low =
    let valid : ltb va 0x800000000000 ≡ true = ground arith in
    rw valid (ap some (rounded PageSize.base_page va low))
page-number gib PageSize.large_page va supports low =
    let valid : ltb va 0x800000000000 ≡ true = ground arith in
    rw valid (ap some (rounded PageSize.large_page va low))
page-number gib PageSize.gib_page va supports low =
    let valid : ltb va 0x800000000000 ≡ true = ground arith in
    rw (valid, supports) (ap some (rounded PageSize.gib_page va low))

-- The arithmetic of a range of `suc n` pages.
pub record Range (size : PageSize) (va n : ℕ) : Type 0 where
  pub low : IsLow va
  pub last : add64 va (sub64 (suc n) 1 * size_of size % u64_mod) ≡ va + n * size_of size
  pub last_low : IsLow (va + n * size_of size)
  pub last_number : (va + n * size_of size) / size_of size ≡ va / size_of size + n
  pub ordered : va / size_of size * size_of size ≤ (va / size_of size + n) * size_of size
  pub fuel :
      suc n
      < ((va / size_of size + n) * size_of size - va / size_of size * size_of size) / size_of size
        + 2
  pub end :
      (va / size_of size + n) * size_of size + size_of size
      ≡ (va / size_of size + suc n) * size_of size

pub fits-Range :
    (size : PageSize) (va n : ℕ)
    → (va / size_of size + suc n) * size_of size ≤ 2 ^ 47
    → Range size va n
fits-Range PageSize.base_page va n h = record {
  low = omega arith;
  last = omega arith;
  last_low = omega arith;
  last_number = omega arith;
  ordered = omega arith;
  fuel = omega arith;
  end = omega arith;
}
fits-Range PageSize.large_page va n h = record {
  low = omega arith;
  last = omega arith;
  last_low = omega arith;
  last_number = omega arith;
  ordered = omega arith;
  fuel = omega arith;
  end = omega arith;
}
fits-Range PageSize.gib_page va n h = record {
  low = omega arith;
  last = omega arith;
  last_low = omega arith;
  last_number = omega arith;
  ordered = omega arith;
  fuel = omega arith;
  end = omega arith;
}

get_page_range-eq :
    (gib_pages : Bool) (size : PageSize) (va n : ℕ)
    → Supports gib_pages size
    → Range size va n
    → get_page_range gib_pages size va (suc n)
      ≡ some (va / size_of size * size_of size, (va / size_of size + n) * size_of size)
unfolding get_page_range range
get_page_range-eq gib size va n supports a =
    let ordered : leb (va / size_of size * size_of size) ((va / size_of size + n) * size_of size)
        ≡ true =
      ground (arith, a.ordered) in
    rw
      (
        page-number gib size va supports a.low,
        a.last,
        page-number gib size (va + n * size_of size) supports a.last_low,
        a.last_number,
        ordered,
      )
      refl

pub get-entry_of :
    (cpu : Cpu) (size : PageSize) (va : ℕ) (memory : Memory)
    → Supports cpu.gib_pages size
    → IsLow va
    → get_page_table_entry cpu size va memory ≡ entry_of size memory (va / size_of size)
unfolding get_page_table_entry
get-entry_of cpu size va memory supports low =
    rw (page-number cpu.gib_pages size va supports low) refl

pub number_low : (size : PageSize) (va : ℕ) → IsLow va → IsLow (va / size_of size * size_of size)
number_low PageSize.base_page va low = omega arith
number_low PageSize.large_page va low = omega arith
number_low PageSize.gib_page va low = omega arith

-- What a lookup finds after `map`, and the interrupts that were sent.
pub record Mapped (cpu : Cpu) (size : PageSize) (va pa count flags : ℕ) (m m' : Machine)
    : Type 0 where
  pub entries :
      (va' : ℕ)
      → IsLow va'
      → get_page_table_entry cpu size va' m'.memory
        ≡ updated_entry size
            (va / size_of size)
            count
            pa
            flags
            (va' / size_of size)
            (get_page_table_entry cpu size va' m.memory)
  pub ipis :
      m'.ipis ≡ (if any_mapped size m.memory (va / size_of size) count then m.ipis + 1 else m.ipis)

signalled :
    (b : Bool) (m : Machine) (k : ℕ)
    → m.ipis ≡ k
    → (if b then record m { ipis = m.ipis + 1 } else m).ipis ≡ (if b then k + 1 else k)
signalled true m k e = ap (λ j. j + 1) e
signalled false m k e = e

signalled_memory :
    (b : Bool) (m : Machine) → (if b then record m { ipis = m.ipis + 1 } else m).memory ≡ m.memory
signalled_memory true m = refl
signalled_memory false m = refl

module _ (cpu : Cpu) (size : PageSize) (va pa n flags : ℕ) (m : Machine) where
  -- For a range of pages below 2^47, frames that start at a multiple of the page size and stay below
  -- the width of the processor, and a free frame for each table that may be missing, `map` returns.
  -- A lookup then finds the entry of its frame with the flags for an address in the range, and what
  -- it found before for any other. One interrupt is sent to the other cores if a page of the range
  -- was mapped before, and none otherwise. Pages of 4 KiB must not carry HUGE_PAGE, and pages of
  -- 1 GiB have to be supported.
  pub map-Mapped :
      IsPlain size flags
      → cpu.width ≤ 63
      → Supports cpu.gib_pages size
      → (va / size_of size + suc n) * size_of size ≤ 2 ^ 47
      → pa % size_of size ≡ 0
      → pa + suc n * size_of size ≤ 2 ^ cpu.width
      → Supplies cpu (suc n * tables_of size) m.frames
      → (m' : Machine) × (map cpu size va pa (suc n) flags m ≡ some m')
        × Mapped cpu size va pa (suc n) flags m m'
  unfolding map map_pages
  map-Mapped plain narrow supports low whole fits s =
      let q = va / size_of size in
      let a = fits-Range size va n low in
      let (r, e, d) =
        loop_Updates cpu size flags plain narrow (suc n) q pa ((q + n) * size_of size)
          (((q + n) * size_of size - q * size_of size) / size_of size + 2) false m a.fuel low a.end
          whole fits s in
      (
        (if r.0 then record r.1 { ipis = r.1.ipis + 1 } else r.1),
        rw (get_page_range-eq cpu.gib_pages size va n supports a, e) refl,
        record {
          entries = λ va' low'.
              get-entry_of cpu size va' _ supports low'
              ∙ ap (λ f. entry_of size f (va' / size_of size)) (signalled_memory r.0 r.1)
              ∙ d.0 (va' / size_of size) (number_low size va' low')
              ∙ ap (updated_entry size q (suc n) pa flags (va' / size_of size))
                  (sym (get-entry_of cpu size va' m.memory supports low'));
          ipis = signalled r.0 r.1 m.ipis d.2 ∙ ap (λ b. if b then m.ipis + 1 else m.ipis) d.1;
        },
      )
