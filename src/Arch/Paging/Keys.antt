-- ===== src/Arch/Paging/Keys.antt =====
-- `set_pkey_on_page_table_entry`: the entries of a range of pages get a protection key.
use libhermit_mpk.Prelude.{
  ℕ, zero, suc, ◌≤◌, ◌≡◌, ◌≢◌, refl, ap, sym, ◌∙◌, Bool, true, false, Option, none, some, arith,
  leb, ltb, ◌==◌, if◌then◌else◌, Bool-cases, inl, inr, ◌∷◌, subst,
}
use native.Mathlib.Decide.{ℕ_discrete, dec_lt}
use libhermit_mpk.Arch.Paging.Entry.{is_present}
use libhermit_mpk.Arch.Paging.Page.{PageSize, map_level}
use libhermit_mpk.Arch.Paging.{Memory, Machine, write, walk, change}
use libhermit_mpk.Arch.Paging.Slots.{
  IsLow, slot, vpn, table, table_index-eq, entry_at-slot, subtable-table, slot-ne, vpn-eq_of_slot,
}
use libhermit_mpk.Arch.Paging.Ranges.{map_level-le}
use libhermit_mpk.Arch.Paging.Walks.{walk-last, walk-step, walk-same}

-- What `change` makes of the entry that the walk finds.
abbrev pub changed : (ℕ → ℕ) → ℕ → ℕ → Machine → Option (Option ℕ) → Option Machine
changed new a page m (some (some word)) =
    some (record m { memory = write m.memory a (new word); flushed = page ∷ m.flushed })
changed new a page m other = none

changed_or :
    (new : ℕ → ℕ) (a page : ℕ) (m : Machine) (b : Bool) (word : ℕ)
    → changed new a page m (some (if b then some word else none)) ≡ (
        if b
        then some (record m { memory = write m.memory a (new word); flushed = page ∷ m.flushed })
        else none)
changed_or new a page m true word = refl
changed_or new a page m false word = refl

changed_if :
    (new : ℕ → ℕ) (a page : ℕ) (m : Machine) (b : Bool) (o : Option (Option ℕ))
    → changed new a page m (if b then o else some none)
      ≡ (if b then changed new a page m o else none)
changed_if new a page m true o = refl
changed_if new a page m false o = refl

module _ (new : ℕ → ℕ) (size : PageSize) (page : ℕ) (low : IsLow page) where
  change-last :
      (l : ℕ) (m : Machine)
      → l ≡ map_level size
      → l ≤ 3
      → change new size l (table l page) page m ≡ (
          if is_present (m.memory (slot l page))
          then some (record m {
            memory = write m.memory (slot l page) (new (m.memory (slot l page)));
            flushed = page ∷ m.flushed;
          })
          else none)
  unfolding change
  change-last zero m e le =
      let test : (0 == map_level size) ≡ true = ground arith in
      rw (test, table_index-eq size 0 page (omega arith) le, entry_at-slot 0 page low le)
        (elim (Bool-cases (is_present (m.memory (slot 0 page)))) [
          | inl here ↦ rw here refl
          | inr absent ↦ rw absent refl
        ])
  change-last (suc l) m e le =
      let test : leb (map_level size) (suc l) ≡ true = ground arith in
      let test' : ltb (map_level size) (suc l) ≡ false = ground arith in
      rw
        (test, table_index-eq size (suc l) page (omega arith) le, entry_at-slot (suc l) page low le)
        (elim (Bool-cases (is_present (m.memory (slot (suc l) page)))) [
          | inl here ↦ rw (here, test') refl
          | inr absent ↦ rw absent refl
        ])

  change-step :
      (l : ℕ) (m : Machine)
      → map_level size ≤ l
      → l ≤ 2
      → change new size (suc l) (table (suc l) page) page m ≡ (
          if is_present (m.memory (slot (suc l) page))
          then change new size l (table l page) page m
          else none)
  unfolding change
  change-step l m h le =
      let test : leb (map_level size) (suc l) ≡ true = ground arith in
      let test' : ltb (map_level size) (suc l) ≡ true = ground arith in
      rw
        (
          test,
          table_index-eq size (suc l) page (omega arith) (omega arith),
          entry_at-slot (suc l) page low (omega arith),
        )
        (elim (Bool-cases (is_present (m.memory (slot (suc l) page)))) [
          | inl here ↦ rw (here, test', subtable-table size l page h le low) refl
          | inr absent ↦ rw absent refl
        ])

  change-at :
      (l : ℕ) (m : Machine)
      → l ≡ map_level size
      → l ≤ 3
      → change new size l (table l page) page m
        ≡ changed new (slot (map_level size) page) page m (walk size l (table l page) page m.memory)
  change-at l m e le =
      subst
        (λ k.
          change new size l (table l page) page m
          ≡ changed new (slot k page) page m (walk size l (table l page) page m.memory))
        e
        (rw (change-last l m e le, walk-last size page low l m.memory e le)
          (sym (
            changed_or new (slot l page) page m (is_present (m.memory (slot l page)))
              (m.memory (slot l page)))))

  -- `change` writes the entry that the walk finds, and fails if there is none.
  pub change-walk :
      (l : ℕ) (m : Machine)
      → map_level size ≤ l
      → l ≤ 3
      → change new size l (table l page) page m
        ≡ changed new (slot (map_level size) page) page m (walk size l (table l page) page m.memory)
  change-walk zero m h le = change-at 0 m (omega arith) le
  change-walk (suc l) m h le = elim (ℕ_discrete (suc l) (map_level size)) [
    | yes e ↦ change-at (suc l) m e le
    | no ne ↦
        rw
          (
            change-step l m (omega arith) (omega arith),
            walk-step size page low l m.memory (omega arith) (omega arith),
            changed_if new (slot (map_level size) page) page m,
            change-walk l m (omega arith) (omega arith),
          )
          refl
  ]

module _ (size : PageSize) (page : ℕ) (low : IsLow page) where
  slots_differ :
      (k page' : ℕ)
      → IsLow page'
      → k ≤ 3
      → vpn (map_level size) page ≢ vpn (map_level size) page'
      → slot (map_level size) page ≢ slot k page'
  slots_differ k page' low' le ne e = elim (dec_lt k (map_level size)) [
    | yes lt ↦
        slot-ne k (map_level size) page page' low' lt (omega (arith, map_level-le size)) (sym e)
    | no not_lt ↦ elim (ℕ_discrete (map_level size) k) [
      | yes same ↦
          ne (vpn-eq_of_slot (map_level size) page page' (e ∙ ap (λ t. slot t page') (sym same)))
      | no other ↦ slot-ne (map_level size) k page' page low (omega arith) le e
    ]
  ]

  -- The pages whose entries are others are looked up as before.
  pub walk-write_other :
      (l page' word : ℕ) (memory : Memory)
      → IsLow page'
      → map_level size ≤ l
      → l ≤ 3
      → vpn (map_level size) page ≢ vpn (map_level size) page'
      → walk size l (table l page') page' (write memory (slot (map_level size) page) word)
        ≡ walk size l (table l page') page' memory
  walk-write_other l page' word memory low' h le ne =
      walk-same size page' low' l memory (write memory (slot (map_level size) page) word) h le
        λ k kl. let apart = slots_differ k page' low' (omega arith) ne in ground arith

  own_last :
      (l word' : ℕ) (memory : Memory)
      → l ≡ map_level size
      → l ≤ 3
      → is_present word' ≡ true
      → walk size l (table l page) page (write memory (slot (map_level size) page) word')
        ≡ some (some word')
  own_last l word' memory e le here =
      let own : write memory (slot (map_level size) page) word' (slot l page) ≡ word' =
        ap (λ k. write memory (slot k page) word' (slot l page)) (sym e) ∙ ground arith in
      rw
        (
          walk-last size page low l (write memory (slot (map_level size) page) word') e le,
          own,
          here,
        )
        refl

  pub walk-write_own :
      (l word word' : ℕ) (memory : Memory)
      → map_level size ≤ l
      → l ≤ 3
      → is_present word' ≡ true
      → walk size l (table l page) page memory ≡ some (some word)
      → walk size l (table l page) page (write memory (slot (map_level size) page) word')
        ≡ some (some word')
  walk-write_own zero word word' memory h le here e = own_last 0 word' memory (omega arith) le here
  walk-write_own (suc l) word word' memory h le here e =
      elim (ℕ_discrete (suc l) (map_level size)) [
        | yes last ↦ own_last (suc l) word' memory last le here
        | no ne ↦
            let apart : slot (map_level size) page ≢ slot (suc l) page =
              slot-ne (map_level size) (suc l) page page low (omega arith) le in
            let spared : write memory (slot (map_level size) page) word' (slot (suc l) page)
                ≡ memory (slot (suc l) page) =
              ground arith in
            elim (Bool-cases (is_present (memory (slot (suc l) page)))) [
              | inl there ↦
                  rw
                    (
                      walk-step size page low l (write memory (slot (map_level size) page) word')
                          (omega arith) (omega arith),
                      spared,
                      there,
                    )
                    (walk-write_own l word word' memory (omega arith) (omega arith) here (
                      ap (λ b. if b then walk size l (table l page) page memory else some none)
                        (sym there)
                      ∙ sym (walk-step size page low l memory (omega arith) (omega arith))
                      ∙ e))
              | inr absent ↦
                  let nothing : ◌≡◌ {A = Option (Option ℕ)} (some none) (some (some word)) =
                    ap (λ b. if b then walk size l (table l page) page memory else some none)
                      (sym absent)
                    ∙ sym (walk-step size page low l memory (omega arith) (omega arith))
                    ∙ e in
                  absurd (cc)
            ]
      ]
