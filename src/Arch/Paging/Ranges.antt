-- ===== src/Arch/Paging/Ranges.antt =====
-- `map` of a range of pages: the root table as a map from page numbers to entries.
use libhermit_mpk.Prelude.{
  ℕ, zero, suc, ◌+◌, ◌-◌, ◌*◌, ◌/◌, ◌%◌, ◌^◌, ◌<◌, ◌≤◌, ◌≡◌, refl, ap, sym, ◌∙◌, Bool, true, false,
  ◌&&◌, ◌||◌, Option, some, arith, leb, ltb, ◌==◌, if◌then◌else◌, Bool-cases, bit_or, inl, inr,
  subst, Option,
}
use native.Mathlib.Nat.{div-eq_of_lt}
use native.Mathlib.Decide.{ℕ_discrete}
use libhermit_mpk.Arch.PhysicalMem.{base_page_size}
use libhermit_mpk.Arch.Paging.Entry.{set, dirty, contains, huge_page, flags_to_set, large_page_size}
use libhermit_mpk.Arch.Paging.Page.{PageSize, map_level, map_extra_flag, size_of}
use libhermit_mpk.Arch.Paging.{Cpu, Memory, Machine, walk, map_page, pml4_address}
use libhermit_mpk.Arch.Paging.Slots.{IsLow, vpn, table, root_table}
use libhermit_mpk.Arch.Paging.Tables.{Supplies}
use libhermit_mpk.Arch.Paging.Maps.{Maps, map_page-Maps, is_mapped}

-- The entry that `map` writes for a frame.
abbrev pub entry_word : PageSize → ℕ → ℕ → ℕ
entry_word size physical_address flags =
    bit_or physical_address (flags_to_set (bit_or (bit_or dirty (map_extra_flag size)) flags))

-- Pages of 4 KiB are not marked as huge.
abbrev pub IsPlain : PageSize → ℕ → Type 0
IsPlain PageSize.base_page flags = contains (bit_or (bit_or dirty 0) flags) huge_page ≡ false
IsPlain size flags = Unit {0}

div-small : (x width : ℕ) → x < 2 ^ width → x / 2 ^ width ≡ 0
div-small x width h = div-eq_of_lt h

set-eq :
    (width : ℕ) (size : PageSize) (physical_address flags : ℕ)
    → IsPlain size flags
    → physical_address % size_of size ≡ 0
    → physical_address < 2 ^ width
    → set width physical_address (bit_or (bit_or dirty (map_extra_flag size)) flags)
      ≡ some (entry_word size physical_address flags)
unfolding set
set-eq width PageSize.base_page pa flags plain whole fits =
    rw (plain, whole, div-small pa width fits) refl
set-eq width PageSize.large_page pa flags plain whole fits =
    elim (Bool-cases (contains (bit_or 192 flags) huge_page)) [
      | inl marked ↦ rw (marked, whole, div-small pa width fits) refl
      | inr unmarked ↦
          let small : pa % base_page_size ≡ 0 = omega arith in
          rw (unmarked, small, div-small pa width fits) refl
    ]
set-eq width PageSize.gib_page pa flags plain whole fits =
    elim (Bool-cases (contains (bit_or 192 flags) huge_page)) [
      | inl marked ↦
          let medium : pa % large_page_size ≡ 0 = omega arith in
          rw (marked, medium, div-small pa width fits) refl
      | inr unmarked ↦
          let small : pa % base_page_size ≡ 0 = omega arith in
          rw (unmarked, small, div-small pa width fits) refl
    ]

pub vpn-page : (size : PageSize) (q : ℕ) → vpn (map_level size) (q * size_of size) ≡ q
vpn-page PageSize.base_page q = omega arith
vpn-page PageSize.large_page q = omega arith
vpn-page PageSize.gib_page q = omega arith

pub map_level-le : (size : PageSize) → map_level size ≤ 2
map_level-le PageSize.base_page = omega arith
map_level-le PageSize.large_page = omega arith
map_level-le PageSize.gib_page = omega arith

-- What the root table says of the page with a number.
abbrev pub entry_of : PageSize → Memory → ℕ → Option (Option ℕ)
entry_of size memory q = walk size 3 pml4_address (q * size_of size) memory

-- The entries after `n` pages from `q` on are mapped.
abbrev pub updated_entry : PageSize → ℕ → ℕ → ℕ → ℕ → ℕ → Option (Option ℕ) → Option (Option ℕ)
updated_entry size q n physical_address flags q' old =
    if leb q q' && ltb q' (q + n)
    then some (some (entry_word size (physical_address + (q' - q) * size_of size) flags))
    else old

-- Whether one of `n` pages from `q` on is mapped.
abbrev pub any_mapped : PageSize → Memory → ℕ → ℕ → Bool
any_mapped size memory q zero = false
any_mapped size memory q (suc n) =
    is_mapped (entry_of size memory q) || any_mapped size memory (suc q) n

pub root_walk :
    (size : PageSize) (q : ℕ) (memory : Memory)
    → IsLow (q * size_of size)
    → entry_of size memory q ≡ walk size 3 (table 3 (q * size_of size)) (q * size_of size) memory
root_walk size q memory low =
    ap (λ t. walk size 3 t (q * size_of size) memory) (sym (root_table (q * size_of size) low))

-- The most tables that a page can need.
abbrev pub tables_of : PageSize → ℕ
tables_of size = 3 - map_level size

-- What the root table says after one page.
pub record Enters (cpu : Cpu) (size : PageSize) (q word spare : ℕ) (m : Machine)
    (r : Bool × Machine) : Type 0 where
  pub entries :
      (q' : ℕ)
      → IsLow (q' * size_of size)
      → entry_of size r.1.memory q'
        ≡ (if q == q' then some (some word) else entry_of size m.memory q')
  pub updated : r.0 ≡ is_mapped (entry_of size m.memory q)
  pub ipis : r.1.ipis ≡ m.ipis
  pub supplied : Supplies cpu spare r.1.frames

module _ (cpu : Cpu) (size : PageSize) (flags : ℕ) (plain : IsPlain size flags)
    (narrow : cpu.width ≤ 63) where
  Enters-of_Maps :
      (q word spare : ℕ) (m : Machine) (r : Bool × Machine)
      → IsLow (q * size_of size)
      → Maps cpu size 3 (q * size_of size) word spare m r
      → Enters cpu size q word spare m r
  Enters-of_Maps q word spare m r low d = record {
    entries = λ q' low'. elim (ℕ_discrete q q') [
      | yes e ↦
          let same : (q == q') ≡ true = ground arith in
          rw same (
            subst (λ n. entry_of size r.1.memory n ≡ some (some word)) e
              (root_walk size q r.1.memory low ∙ d.own))
      | no ne ↦
          let differ : (q == q') ≡ false = ground arith in
          rw differ (
            root_walk size q' r.1.memory low'
            ∙ d.others (q' * size_of size) low'
                (root_table (q * size_of size) low ∙ sym (root_table (q' * size_of size) low'))
                (λ e. ne (sym (vpn-page size q) ∙ e ∙ vpn-page size q'))
            ∙ sym (root_walk size q' m.memory low'))
    ];
    updated = d.updated ∙ ap is_mapped (sym (root_walk size q m.memory low));
    ipis = d.ipis;
    supplied = d.supplied;
  }

  pub enter_page :
      (q physical_address spare : ℕ) (m : Machine)
      → IsLow (q * size_of size)
      → physical_address % size_of size ≡ 0
      → physical_address < 2 ^ cpu.width
      → Supplies cpu (tables_of size + spare) m.frames
      → (r : Bool × Machine) × (map_page cpu size 3 pml4_address
            (q * size_of size)
            physical_address
            flags
            m
          ≡ some r)
        × Enters cpu size q (entry_word size physical_address flags) spare m r
  enter_page q pa spare m low whole fits s =
      let (r, e, d) =
        map_page-Maps cpu size (q * size_of size) low pa flags (entry_word size pa flags)
          (set-eq cpu.width size pa flags plain whole fits) 3 spare m
          (omega (arith, map_level-le size)) (omega arith) s in
      (
        r,
        ap (λ t. map_page cpu size 3 t (q * size_of size) pa flags m)
              (sym (root_table (q * size_of size) low))
            ∙ e,
        Enters-of_Maps q (entry_word size pa flags) spare m r low d,
      )
