-- ===== src/Arch/Paging/Pkeys.antt =====
-- `set_pkey_on_page_table_entry` on a range of pages.
use libhermit_mpk.Prelude.{
  ℕ, zero, suc, ◌+◌, ◌-◌, ◌*◌, ◌/◌, ◌%◌, ◌^◌, ◌<◌, ◌≤◌, ◌≡◌, refl, ap, sym, ◌∙◌, true, false, ◌&&◌,
  Option, some, arith, leb, ltb, ◌==◌, if◌then◌else◌, add64, u64_mod, Bool-cases, inl, inr, subst,
}
use native.Mathlib.Decide.{ℕ_discrete, dec_lt}
use libhermit_mpk.Arch.Paging.Page.{PageSize, size_of, including_address}
use libhermit_mpk.Arch.Paging.{Cpu, Memory, Machine}
use libhermit_mpk.Arch.Paging.Calls.{
  set_pkey_from, set_pkey_on_page_table_entry, get_page_table_entry,
}
use libhermit_mpk.Arch.Paging.Entry.{with_pkey}
use libhermit_mpk.Arch.Paging.Words.{HasKey, with_pkey-HasKey}
use libhermit_mpk.Arch.Paging.Slots.{IsLow}
use libhermit_mpk.Arch.Paging.Ranges.{entry_of}
use libhermit_mpk.Arch.Paging.Loop.{low_page}
use libhermit_mpk.Arch.Paging.Mapping.{get-entry_of, number_low, fits-Range, Supports, page-number}
use libhermit_mpk.Arch.Paging.Rekey.{rekeyed, keyed_at, change_page, page_entries}

offset :
    (size : PageSize) (va i : ℕ)
    → (va / size_of size + suc i) * size_of size ≤ 2 ^ 47
    → add64 va (size_of size * i % u64_mod) ≡ va + i * size_of size
offset PageSize.base_page va i low = omega arith
offset PageSize.large_page va i low = omega arith
offset PageSize.gib_page va i low = omega arith

fewer_pages :
    (size : PageSize) (k n : ℕ) → k ≤ n → n * size_of size ≤ 2 ^ 47 → k * size_of size ≤ 2 ^ 47
fewer_pages PageSize.base_page k n le h = omega arith
fewer_pages PageSize.large_page k n le h = omega arith
fewer_pages PageSize.gib_page k n le h = omega arith

-- The entries after `n` pages from `q` on have their key.
abbrev pub rekeyed_entry : ℕ → ℕ → ℕ → ℕ → Option (Option ℕ) → Option (Option ℕ)
rekeyed_entry key q n q' old = if leb q q' && ltb q' (q + n) then rekeyed key old else old

-- Each of `count` pages from the address on is mapped.
abbrev pub AllMapped : PageSize → ℕ → ℕ → Memory → Type 0
AllMapped size va count memory =
    (j : ℕ)
    → j < count
    → (word : ℕ) × (entry_of size memory (va / size_of size + j) ≡ some (some word))

-- The lookups after `set_pkey_on_page_table_entry`, given those before: within the range an entry
-- with the key and all other bits of the old one, outside it what was found before.
pub record Rekeys (cpu : Cpu) (size : PageSize) (key va count : ℕ) (m m' : Machine) : Type 0 where
  pub inside :
      (va' : ℕ)
      → IsLow va'
      → va / size_of size ≤ va' / size_of size
      → va' / size_of size < va / size_of size + count
      → (word : ℕ) × (word' : ℕ) × (get_page_table_entry cpu size va' m.memory ≡ some (some word))
        × (get_page_table_entry cpu size va' m'.memory ≡ some (some word'))
        × HasKey key word word'
  pub outside :
      (va' : ℕ)
      → IsLow va'
      → (leb (va / size_of size) (va' / size_of size)
          && ltb (va' / size_of size) (va / size_of size + count))
        ≡ false
      → get_page_table_entry cpu size va' m'.memory ≡ get_page_table_entry cpu size va' m.memory
  pub ipis : m'.ipis ≡ m.ipis

module _ (cpu : Cpu) (size : PageSize) (key : ℕ) (le : key ≤ 15) where
  no_pages : (q q' : ℕ) (old : Option (Option ℕ)) → old ≡ rekeyed_entry key q 0 q' old
  no_pages q q' old = elim (Bool-cases (leb q q')) [
    | inl above ↦ let out : ltb q' (q + 0) ≡ false = ground arith in rw (above, out) refl
    | inr below ↦ rw below refl
  ]

  one_more_page :
      (q n q' : ℕ) (old : Option (Option ℕ))
      → rekeyed_entry key (suc q) n q' (if q == q' then rekeyed key old else old)
        ≡ rekeyed_entry key q (suc n) q' old
  one_more_page q n q' old = elim (dec_lt q q') [
    | yes lt ↦
        let first : (q == q') ≡ false = ground arith in
        let here : leb q q' ≡ true = ground arith in
        let next_here : leb (suc q) q' ≡ true = ground arith in
        let shift : suc q + n ≡ q + suc n = omega arith in rw (first, here, next_here, shift) refl
    | no not_lt ↦
        let next_out : leb (suc q) q' ≡ false = ground arith in
        elim (ℕ_discrete q q') [
          | yes e ↦
              let first : (q == q') ≡ true = ground arith in
              let here : leb q q' ≡ true = ground arith in
              let inside : ltb q' (q + suc n) ≡ true = ground arith in
              rw (next_out, first, here, inside) refl
          | no ne ↦
              let first : (q == q') ≡ false = ground arith in
              let here : leb q q' ≡ false = ground arith in rw (next_out, first, here) refl
        ]
  ]

  address_step :
      (va i : ℕ)
      → Supports cpu.gib_pages size
      → (va / size_of size + suc i) * size_of size ≤ 2 ^ 47
      → including_address cpu.gib_pages size (add64 va (size_of size * i % u64_mod))
        ≡ some ((va / size_of size + i) * size_of size)
  address_step va i supports low =
      let a = fits-Range size va i low in
      rw
        (
          offset size va i low,
          page-number cpu.gib_pages size (va + i * size_of size) supports a.last_low,
          a.last_number,
        )
        refl

  loop_Rekeys :
      (rounds i va : ℕ) (m : Machine)
      → Supports cpu.gib_pages size
      → (va / size_of size + (i + rounds)) * size_of size ≤ 2 ^ 47
      → ((j : ℕ)
          → i ≤ j
          → j < i + rounds
          → (word : ℕ) × (entry_of size m.memory (va / size_of size + j) ≡ some (some word)))
      → (m' : Machine) × (set_pkey_from rounds i cpu size va key m ≡ some m')
        × ((q' : ℕ)
            → IsLow (q' * size_of size)
            → entry_of size m'.memory q'
              ≡ rekeyed_entry key (va / size_of size + i) rounds q' (entry_of size m.memory q'))
        × (m'.ipis ≡ m.ipis)
  unfolding set_pkey_from
  loop_Rekeys zero i va m supports low mapped =
      (m, refl, λ q' _. no_pages (va / size_of size + i) q' (entry_of size m.memory q'), refl)
  loop_Rekeys (suc rounds) i va m supports low mapped =
      let q = va / size_of size + i in
      let below : (va / size_of size + suc i) * size_of size ≤ 2 ^ 47 =
        fewer_pages size (va / size_of size + suc i) (va / size_of size + (i + suc rounds))
          (omega arith) low in
      let low_q : IsLow (q * size_of size) =
        low_page size q (va / size_of size + suc i) (omega arith) below in
      let (word, e) = mapped i (omega arith) (omega arith) in
      let m1 = keyed_at size key q word m in
      let pages : i + suc rounds ≡ suc i + rounds = omega arith in
      let (m', e', entries, ipis) =
        loop_Rekeys rounds (suc i) va m1 supports
          (subst (λ k. (va / size_of size + k) * size_of size ≤ 2 ^ 47) pages low)
          (λ j lej ltj.
            let (word', ej) = mapped j (omega arith) (omega arith) in
            let other : (q == va / size_of size + j) ≡ false = ground arith in
            (
              word',
              page_entries size key le q word m low_q e (va / size_of size + j) (
                    low_page size (va / size_of size + j) (va / size_of size + (i + suc rounds))
                      (omega arith) low)
                  ∙ rw other ej,
            )) in
      (
        m',
        rw (address_step va i supports below, change_page size key le q word m low_q e) e',
        λ q' low'.
            entries q' low'
            ∙ ap (rekeyed_entry key (va / size_of size + suc i) rounds q')
                (page_entries size key le q word m low_q e q' low')
            ∙ ap
                (λ k. rekeyed_entry key k rounds q' (
                  if q == q'
                  then rekeyed key (entry_of size m.memory q')
                  else entry_of size m.memory q'))
                (omega arith)
            ∙ one_more_page q rounds q' (entry_of size m.memory q'),
        ipis,
      )

  -- The lookup of any address, in terms of the entry before.
  lookup_Rekeys :
      (va count : ℕ) (m m' : Machine)
      → Supports cpu.gib_pages size
      → ((q' : ℕ)
          → IsLow (q' * size_of size)
          → entry_of size m'.memory q'
            ≡ rekeyed_entry key (va / size_of size + 0) count q' (entry_of size m.memory q'))
      → (va' : ℕ) → IsLow va'
      → get_page_table_entry cpu size va' m'.memory
        ≡ rekeyed_entry key
            (va / size_of size)
            count
            (va' / size_of size)
            (get_page_table_entry cpu size va' m.memory)
  lookup_Rekeys va count m m' supports entries va' low' =
      get-entry_of cpu size va' m'.memory supports low'
      ∙ entries (va' / size_of size) (number_low size va' low')
      ∙ ap (rekeyed_entry key (va / size_of size + 0) count (va' / size_of size))
          (sym (get-entry_of cpu size va' m.memory supports low'))
      ∙ ap
          (λ k.
            rekeyed_entry key k count (va' / size_of size)
              (get_page_table_entry cpu size va' m.memory))
          (omega arith)

  -- For a key of at most 15: if the pages are mapped, `set_pkey_on_page_table_entry` gives the entry
  -- of each of them the key and leaves its other bits, and leaves all other entries of the lower half
  -- of the address space. No other core is told. Pages of 1 GiB have to be supported.
  pub set_pkey_on_page_table_entry-Rekeys :
      (va count : ℕ) (m : Machine)
      → Supports cpu.gib_pages size
      → (va / size_of size + count) * size_of size ≤ 2 ^ 47
      → AllMapped size va count m.memory
      → (m' : Machine) × (set_pkey_on_page_table_entry cpu size va count key m ≡ some m')
        × Rekeys cpu size key va count m m'
  unfolding set_pkey_on_page_table_entry
  set_pkey_on_page_table_entry-Rekeys va count m supports low mapped =
      let (m', e, entries, ipis) =
        loop_Rekeys count 0 va m supports
          (subst (λ k. (va / size_of size + k) * size_of size ≤ 2 ^ 47) (omega arith) low)
          (λ j _ lt. mapped j (omega arith)) in
      let look = lookup_Rekeys va count m m' supports entries in
      (
        m',
        e,
        record {
          inside = λ va' low' ge lt.
              let j = va' / size_of size - va / size_of size in
              let (word, found) = mapped j (omega arith) in
              let index : va / size_of size + j ≡ va' / size_of size = omega arith in
              let here : (leb (va / size_of size) (va' / size_of size)
                    && ltb (va' / size_of size) (va / size_of size + count))
                  ≡ true =
                ground arith in
              let old : get_page_table_entry cpu size va' m.memory ≡ some (some word) =
                get-entry_of cpu size va' m.memory supports low'
                ∙ ap (entry_of size m.memory) (sym index)
                ∙ found in
              (
                word,
                with_pkey word key,
                old,
                look va' low' ∙ rw (here, old) refl,
                with_pkey-HasKey word key le,
              );
          outside = λ va' low' out. look va' low' ∙ rw out refl;
          ipis = ipis;
        },
      )
