-- ===== src/Arch/Paging/Rekey.antt =====
-- `set_pkey_on_page_table_entry`: one page.
use libhermit_mpk.Prelude.{
  ℕ, ◌*◌, ◌≤◌, ◌≡◌, ap, sym, ◌∙◌, true, false, Option, some, arith, ◌==◌, if◌then◌else◌, ◌∷◌, subst,
  not,
}
use native.Mathlib.Decide.{ℕ_discrete}
use libhermit_mpk.Prelude.Fields.{bit_and-mod}
use libhermit_mpk.Prelude.TestBit.{bit}
use libhermit_mpk.Arch.Paging.Entry.{is_present, with_pkey}
use libhermit_mpk.Arch.Paging.Page.{PageSize, map_level, size_of}
use libhermit_mpk.Arch.Paging.{Machine, write, change, pml4_address}
use libhermit_mpk.Arch.Paging.Slots.{IsLow, slot, root_table}
use libhermit_mpk.Arch.Paging.Ranges.{entry_of, root_walk, vpn-page, map_level-le}
use libhermit_mpk.Arch.Paging.Words.{with_pkey-bit}
use libhermit_mpk.Arch.Paging.Translate.{walk-slot}
use libhermit_mpk.Arch.Paging.Keys.{changed, change-walk, walk-write_other, walk-write_own}

present-bit : (word : ℕ) → is_present word ≡ not (bit word 0 == 0)
unfolding is_present bit
present-bit word = ap (λ t. not (t == 0)) (bit_and-mod 1 word)

with_pkey-present : (word key : ℕ) → key ≤ 15 → is_present (with_pkey word key) ≡ is_present word
with_pkey-present word key le =
    present-bit (with_pkey word key)
    ∙ ap (λ t. not (t == 0)) (with_pkey-bit word key 0 le (omega arith))
    ∙ sym (present-bit word)

-- The entry of a page, if there is one, with a new key.
abbrev pub rekeyed : ℕ → Option (Option ℕ) → Option (Option ℕ)
rekeyed key (some (some word)) = some (some (with_pkey word key))
rekeyed key other = other

-- One page with its key.
abbrev pub keyed_at : PageSize → ℕ → ℕ → ℕ → Machine → Machine
keyed_at size key q word m = record m {
  memory = write m.memory (slot (map_level size) (q * size_of size)) (with_pkey word key);
  flushed = q * size_of size ∷ m.flushed;
}

module _ (size : PageSize) (key : ℕ) (le : key ≤ 15) where
  pub change_page :
      (q word : ℕ) (m : Machine)
      → IsLow (q * size_of size)
      → entry_of size m.memory q ≡ some (some word)
      → change (λ w. with_pkey w key) size 3 pml4_address (q * size_of size) m
        ≡ some (keyed_at size key q word m)
  change_page q word m low e =
      ap (λ t. change (λ w. with_pkey w key) size 3 t (q * size_of size) m)
        (sym (root_table (q * size_of size) low))
      ∙ change-walk (λ w. with_pkey w key) size (q * size_of size) low 3 m
          (omega (arith, map_level-le size)) (omega arith)
      ∙ ap
          (changed (λ w. with_pkey w key) (slot (map_level size) (q * size_of size))
            (q * size_of size) m)
          (sym (root_walk size q m.memory low) ∙ e)

  found_present :
      (q word : ℕ) (m : Machine)
      → IsLow (q * size_of size)
      → entry_of size m.memory q ≡ some (some word)
      → is_present word ≡ true
  found_present q word m low e =
      let found =
        walk-slot size 3 (q * size_of size) word m.memory low (omega (arith, map_level-le size))
          (omega arith) (sym (root_walk size q m.memory low) ∙ e) in
      ap is_present (sym (found.0)) ∙ found.1

  pub page_entries :
      (q word : ℕ) (m : Machine)
      → IsLow (q * size_of size)
      → entry_of size m.memory q ≡ some (some word)
      → (q' : ℕ) → IsLow (q' * size_of size)
      → entry_of size (keyed_at size key q word m).memory q'
        ≡ (if q == q' then rekeyed key (entry_of size m.memory q') else entry_of size m.memory q')
  page_entries q word m low e q' low' = elim (ℕ_discrete q q') [
    | yes same ↦
        let test : (q == q') ≡ true = ground arith in
        let e' : entry_of size m.memory q' ≡ some (some word) =
          ap (entry_of size m.memory) (sym same) ∙ e in
        rw (test, e')
          (subst
            (λ n.
              entry_of size (keyed_at size key q word m).memory n
              ≡ some (some (with_pkey word key)))
            same
            (root_walk size q (keyed_at size key q word m).memory low
              ∙ walk-write_own size (q * size_of size) low 3 word (with_pkey word key) m.memory
                  (omega (arith, map_level-le size)) (omega arith)
                  (with_pkey-present word key le ∙ found_present q word m low e)
                  (sym (root_walk size q m.memory low) ∙ e)))
    | no ne ↦
        let test : (q == q') ≡ false = ground arith in
        rw test (
          root_walk size q' (keyed_at size key q word m).memory low'
          ∙ walk-write_other size (q * size_of size) low 3 (q' * size_of size) (with_pkey word key)
              m.memory low' (omega (arith, map_level-le size)) (omega arith)
              (λ same. ne (sym (vpn-page size q) ∙ same ∙ vpn-page size q'))
          ∙ sym (root_walk size q' m.memory low'))
  ]
