-- ===== src/Arch/Paging/Walks.antt =====
-- The walk and the descent of `map_page`, one level at a time, in terms of the entries of a page.
use libhermit_mpk.Prelude.{
  ℕ, zero, suc, ◌%◌, ◌≤◌, ◌≡◌, refl, Bool, true, false, Option, none, some, arith, leb, ltb, ◌==◌,
  if◌then◌else◌, bit_or,
}
use native.Mathlib.Decide.{ℕ_discrete}
use libhermit_mpk.Arch.Paging.Entry.{is_present, set, dirty}
use libhermit_mpk.Arch.Paging.Page.{PageSize, map_level, map_extra_flag}
use libhermit_mpk.Arch.Paging.{
  Cpu, Memory, Machine, write, entry_at, flush_if, map_page_in_this_table, walk, ensure_table,
  map_page,
}
use libhermit_mpk.Arch.Paging.Slots.{
  IsLow, vpn, slot, table, table_index-eq, entry_at-slot, subtable-table,
}

-- What a table says of a page.
abbrev pub look : Memory → ℕ → Option ℕ
look memory a = if is_present (memory a) then some (memory a) else none

found_or :
    (b : Bool) (word : ℕ)
    → (if b then some (some word) else some none) ≡ some (if b then some word else none)
found_or true word = refl
found_or false word = refl

module _ (size : PageSize) (page : ℕ) (low : IsLow page) where
  at_index : (l : ℕ) → l ≤ 3 → entry_at (table l page) (vpn l page % 512) ≡ slot l page
  at_index l le = entry_at-slot l page low le

  pub walk-last :
      (l : ℕ) (memory : Memory)
      → l ≡ map_level size
      → l ≤ 3
      → walk size l (table l page) page memory ≡ some (look memory (slot l page))
  unfolding walk
  walk-last zero memory e le =
      let test : (0 == map_level size) ≡ true = ground arith in
      rw (test, table_index-eq size 0 page (omega arith) le, at_index 0 le) refl
  walk-last (suc l) memory e le =
      let test : leb (map_level size) (suc l) ≡ true = ground arith in
      let test' : ltb (map_level size) (suc l) ≡ false = ground arith in
      rw (test, table_index-eq size (suc l) page (omega arith) le, at_index (suc l) le, test')
        (found_or (is_present (memory (slot (suc l) page))) (memory (slot (suc l) page)))

  pub walk-step :
      (l : ℕ) (memory : Memory)
      → map_level size ≤ l
      → l ≤ 2
      → walk size (suc l) (table (suc l) page) page memory ≡ (
          if is_present (memory (slot (suc l) page))
          then walk size l (table l page) page memory
          else some none)
  unfolding walk
  walk-step l memory h le =
      let test : leb (map_level size) (suc l) ≡ true = ground arith in
      let test' : ltb (map_level size) (suc l) ≡ true = ground arith in
      rw
        (
          test,
          table_index-eq size (suc l) page (omega arith) (omega arith),
          at_index (suc l) (omega arith),
          test',
          subtable-table size l page h le low,
        )
        refl

  -- The walk reads the entries of the page alone.
  pub walk-same :
      (l : ℕ) (memory memory' : Memory)
      → map_level size ≤ l
      → l ≤ 3
      → ((k : ℕ) → k ≤ l → memory' (slot k page) ≡ memory (slot k page))
      → walk size l (table l page) page memory' ≡ walk size l (table l page) page memory
  walk-same zero memory memory' h le same =
      rw
        (
          walk-last 0 memory' (omega arith) le,
          walk-last 0 memory (omega arith) le,
          same 0 (omega arith),
        )
        refl
  walk-same (suc l) memory memory' h le same = elim (ℕ_discrete (suc l) (map_level size)) [
    | yes e ↦
        rw
          (
            walk-last (suc l) memory' e le,
            walk-last (suc l) memory e le,
            same (suc l) (omega arith),
          )
          refl
    | no ne ↦
        rw
          (
            walk-step l memory' (omega arith) (omega arith),
            walk-step l memory (omega arith) (omega arith),
            same (suc l) (omega arith),
            walk-same l memory memory' (omega arith) (omega arith) (λ k kl. same k (omega arith)),
          )
          refl
  ]

  module _ (cpu : Cpu) (physical_address flags : ℕ) where
    -- What `map_page_in_this_table` does if `set` yields the word.
    abbrev pub enter : ℕ → ℕ → Machine → Bool × Machine
    enter l word m = (
      is_present (m.memory (slot l page)),
      flush_if (is_present (m.memory (slot l page))) page
          (record m { memory = write m.memory (slot l page) word }),
    )

    module _ (word : ℕ)
        (sets : set cpu.width physical_address (bit_or (bit_or dirty (map_extra_flag size)) flags)
          ≡ some word) where
      enter-eq :
          (l : ℕ) (m : Machine)
          → l ≡ map_level size
          → l ≤ 3
          → map_page_in_this_table cpu size l (table l page) page physical_address flags m
            ≡ some (enter l word m)
      unfolding map_page_in_this_table
      enter-eq l m e le =
          let test : (l == map_level size) ≡ true = ground arith in
          rw (test, table_index-eq size l page (omega arith) le, at_index l le, sets) refl

      pub map_page-last :
          (l : ℕ) (m : Machine)
          → l ≡ map_level size
          → l ≤ 3
          → map_page cpu size l (table l page) page physical_address flags m ≡ some (enter l word m)
      unfolding map_page
      map_page-last zero m e le = enter-eq zero m e le
      map_page-last (suc l) m e le =
          let test : leb (map_level size) (suc l) ≡ true = ground arith in
          let test' : ltb (map_level size) (suc l) ≡ false = ground arith in
          rw (test, test', enter-eq (suc l) m e le) refl

    pub map_page-step :
        (l : ℕ) (m m' : Machine)
        → map_level size ≤ l
        → l ≤ 2
        → ensure_table cpu size (suc l) (table (suc l) page) page (vpn (suc l) page % 512) m
          ≡ some m'
        → map_page cpu size (suc l) (table (suc l) page) page physical_address flags m
          ≡ map_page cpu size l (table l page) page physical_address flags m'
    unfolding map_page
    map_page-step l m m' h le ensures =
        let test : leb (map_level size) (suc l) ≡ true = ground arith in
        let test' : ltb (map_level size) (suc l) ≡ true = ground arith in
        rw
          (
            test,
            test',
            table_index-eq size (suc l) page (omega arith) (omega arith),
            ensures,
            subtable-table size l page h le low,
          )
          refl
