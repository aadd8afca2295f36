-- ===== src/Arch/Paging/Translate.antt =====
-- `virtual_to_physical` reads the tables as arrays, `get_physical_address` walks through them.
use libhermit_mpk.Prelude.{
  subst, ℕ, zero, suc, ◌+◌, ◌-◌, ◌*◌, ◌/◌, ◌%◌, ◌^◌, ◌<◌, ◌≤◌, ◌≡◌, refl, ap, sym, ◌∙◌, Bool, true,
  false, ◌||◌, Option, none, some, arith, ltb, ◌==◌, if◌then◌else◌, add64, sub64, u64_mod,
  Bool-cases, bit_and, inl, inr, not64,
}
use native.Mathlib.Decide.{ℕ_discrete}
use libhermit_mpk.Prelude.TestBit.{bit, bit-bit_and, bit-le, bit_and-lt}
use libhermit_mpk.Prelude.Fields.{high_bits, eq_of_bits, bit_or_comm}
use libhermit_mpk.Arch.PhysicalMem.{base_page_size}
use libhermit_mpk.Arch.Paging.Entry.{address, is_present, has_flag, huge_page, key_mask}
use libhermit_mpk.Arch.Paging.Page.{PageSize, map_level}
use libhermit_mpk.Arch.Paging.{Cpu, Memory, walk}
use libhermit_mpk.Arch.Paging.Calls.{
  get_page_table_entry, get_physical_address, self_map, frame_bits, translate, virtual_to_physical,
}
use libhermit_mpk.Arch.Paging.Slots.{IsLow, slot, table}
use libhermit_mpk.Arch.Paging.Walks.{walk-last, walk-step}
use libhermit_mpk.Arch.Paging.Words.{is_address_bit, digit, has_bits, address-bit, address-lt}
use libhermit_mpk.Arch.Paging.Ranges.{root_walk}
use libhermit_mpk.Arch.Paging.Mapping.{get-entry_of}

looked :
    (b : Bool) (a word : ℕ)
    → ◌≡◌ {A = Option (Option ℕ)} (some (if b then some a else none)) (some (some word))
    → (a ≡ word) × (b ≡ true)
looked true a word e = (cc, refl)
looked false a word e = absurd (cc)

-- An entry that the walk finds is the word at the slot of the page, and is present.
pub walk-slot :
    (size : PageSize) (l page word : ℕ) (memory : Memory)
    → IsLow page
    → map_level size ≤ l
    → l ≤ 3
    → walk size l (table l page) page memory ≡ some (some word)
    → (memory (slot (map_level size) page) ≡ word)
      × (is_present (memory (slot (map_level size) page)) ≡ true)
walk-slot size l page word memory low h le e = by_level l h le e
  where
    at_level :
        (l : ℕ)
        → l ≡ map_level size
        → l ≤ 3
        → walk size l (table l page) page memory ≡ some (some word)
        → (memory (slot (map_level size) page) ≡ word)
          × (is_present (memory (slot (map_level size) page)) ≡ true)
    at_level l last le e =
        subst (λ k. (memory (slot k page) ≡ word) × (is_present (memory (slot k page)) ≡ true)) last
          (looked (is_present (memory (slot l page))) (memory (slot l page)) word
            (sym (walk-last size page low l memory last le) ∙ e))

    by_level :
        (l : ℕ)
        → map_level size ≤ l
        → l ≤ 3
        → walk size l (table l page) page memory ≡ some (some word)
        → (memory (slot (map_level size) page) ≡ word)
          × (is_present (memory (slot (map_level size) page)) ≡ true)
    by_level zero h le e = at_level 0 (omega arith) le e
    by_level (suc l) h le e = elim (ℕ_discrete (suc l) (map_level size)) [
      | yes last ↦ at_level (suc l) last le e
      | no ne ↦ elim (Bool-cases (is_present (memory (slot (suc l) page)))) [
        | inl here ↦ by_level l (omega arith) (omega arith) (
            ap (λ b. if b then walk size l (table l page) page memory else some none) (sym here)
            ∙ sym (walk-step size page low l memory (omega arith) (omega arith))
            ∙ e)
        | inr absent ↦
            let nothing : ◌≡◌ {A = Option (Option ℕ)} (some none) (some (some word)) =
              ap (λ b. if b then walk size l (table l page) page memory else some none) (sym absent)
              ∙ sym (walk-step size page low l memory (omega arith) (omega arith))
              ∙ e in
            absurd (cc)
      ]
    ]

-- The array index of `virtual_to_physical` is the slot.
array-slot :
    (l va : ℕ)
    → IsLow va
    → l ≤ 2
    → add64 (self_map l) (va / 2 ^ (12 + l * 9) * 8 % u64_mod) ≡ slot l va
unfolding slot
array-slot zero va low le = omega arith
array-slot (suc zero) va low le = omega arith
array-slot (suc (suc zero)) va low le = omega arith
array-slot (suc (suc (suc l))) va low le = absurd (omega arith)

page-slot : (va : ℕ) → slot 0 (va / base_page_size * base_page_size) ≡ slot 0 va
unfolding slot
page-slot va = omega arith

frame_mask-bit :
    (i : ℕ) → i < 64 → bit (bit_and (frame_bits 12) key_mask) i ≡ digit (is_address_bit i)
unfolding bit
frame_mask-bit = has_bits (bit_and (frame_bits 12) key_mask) is_address_bit refl

frame_part :
    (word : ℕ) → word < u64_mod → bit_and word (bit_and (frame_bits 12) key_mask) ≡ address word
frame_part word h =
    eq_of_bits 64 (bit_and word (bit_and (frame_bits 12) key_mask)) (address word)
      (bit_and-lt 64 word (bit_and (frame_bits 12) key_mask) h) (address-lt word h)
      λ i lt. ground (
        arith,
        bit-bit_and i word (bit_and (frame_bits 12) key_mask),
        frame_mask-bit i lt,
        address-bit word i lt,
        bit-le word i,
      )

offset_mask-bit : (i : ℕ) → i < 64 → bit (not64 (frame_bits 12)) i ≡ digit (ltb i 12 || i == 63)
unfolding bit
offset_mask-bit = has_bits (not64 (frame_bits 12)) (λ i. ltb i 12 || i == 63) refl

page_mask-bit : (i : ℕ) → i < 64 → bit (sub64 base_page_size 1) i ≡ digit (ltb i 12)
unfolding bit
page_mask-bit = has_bits (sub64 base_page_size 1) (λ i. ltb i 12) refl

low_mask-bit : (i : ℕ) → i < 64 → bit (2 ^ 47 - 1) i ≡ digit (ltb i 47)
unfolding bit
low_mask-bit = has_bits (2 ^ 47 - 1) (λ i. ltb i 47) refl

offset_part :
    (va : ℕ) → IsLow va → bit_and va (not64 (frame_bits 12)) ≡ bit_and va (sub64 base_page_size 1)
offset_part va low =
    eq_of_bits 64 (bit_and va (not64 (frame_bits 12))) (bit_and va (sub64 base_page_size 1))
      (bit_and-lt 64 va (not64 (frame_bits 12)) (omega arith))
      (bit_and-lt 64 va (sub64 base_page_size 1) (omega arith))
      λ i lt. elim (Bool-cases (ltb i 47)) [
        | inl inside ↦ ground (
          arith,
          bit-bit_and i va (not64 (frame_bits 12)),
          bit-bit_and i va (sub64 base_page_size 1),
          offset_mask-bit i lt,
          page_mask-bit i lt,
        )
        | inr high ↦
            let none_set : bit va i ≡ 0 =
              high_bits 47 i va low (low_mask-bit i lt ∙ ap digit high) in
            ground (
              arith,
              none_set,
              bit-bit_and i va (not64 (frame_bits 12)),
              bit-bit_and i va (sub64 base_page_size 1),
            )
      ]

-- For a page of 4 KiB that is mapped below no larger page, in the lower half of the address space,
-- `virtual_to_physical` and `get_physical_address` agree.
pub get_physical_address-virtual_to_physical :
    (cpu : Cpu) (va word : ℕ) (memory : Memory)
    → IsLow va
    → word < u64_mod
    → get_page_table_entry cpu PageSize.base_page va memory ≡ some (some word)
    → has_flag (memory (slot 2 va)) huge_page ≡ false
    → has_flag (memory (slot 1 va)) huge_page ≡ false
    → get_physical_address cpu PageSize.base_page va memory ≡ some (virtual_to_physical va memory)
unfolding get_physical_address virtual_to_physical translate
get_physical_address-virtual_to_physical cpu va word memory low small found no_gib no_large =
    let page = va / base_page_size * base_page_size in
    let stored : memory (slot 0 va) ≡ word =
      ap memory (sym (page-slot va))
      ∙ (walk-slot PageSize.base_page 3 page word memory (omega arith) (omega arith) (omega arith) (
          sym (root_walk PageSize.base_page (va / base_page_size) memory (omega arith))
          ∙ sym (get-entry_of cpu PageSize.base_page va memory tt low)
          ∙ found)).0 in
    rw
      (
        found,
        array-slot 2 va low (omega arith),
        no_gib,
        array-slot 1 va low (omega arith),
        no_large,
        array-slot 0 va low (omega arith),
        stored,
        frame_part word small,
        offset_part va low,
      )
      (ap some (
        bit_or_comm (address word) (bit_and va (sub64 base_page_size 1)) (address-lt word small)
          (bit_and-lt 64 va (sub64 base_page_size 1) (omega arith))))
