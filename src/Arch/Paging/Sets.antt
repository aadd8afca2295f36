-- ===== src/Arch/Paging/Sets.antt =====
-- `set` and the functions that read an entry.
use libhermit_mpk.Prelude.{
  ℕ, ◌%◌, ◌^◌, ◌<◌, ◌≤◌, ◌≡◌, refl, ap, sym, ◌∙◌, Bool, true, false, ◌||◌, ltb, some, arith, ◌==◌,
  if◌then◌else◌, u64_mod, Bool-cases, bit_or, inl, inr,
}
use native.Mathlib.Nat.{div-eq_of_lt}
use libhermit_mpk.Prelude.Bits.{pow_mono}
use libhermit_mpk.Prelude.TestBit.{bit, bit-le, bit-bit_or, bit_or-lt, zero-bit}
use libhermit_mpk.Prelude.Fields.{eq_of_bits}
use libhermit_mpk.Arch.PhysicalMem.{base_page_size}
use libhermit_mpk.Arch.Paging.Entry.{
  address, get_flags, set, contains, huge_page, large_page_size, flags_to_set, insert, present,
  accessed, user_accessible,
}
use libhermit_mpk.Arch.Paging.Words.{
  IsFlags, IsFrame, is_address_bit, has_bits, address-bit, address-lt, address-bit_or,
  get_flags-bit, frame-bit, digit,
}

-- Flags stay flags when a flag below bit 12 is inserted.
insert-IsFlags :
    (flags flag : ℕ)
    → flag < u64_mod
    → ((i : ℕ) → i < 64 → is_address_bit i ≡ true → bit flag i ≡ 0)
    → IsFlags flags
    → IsFlags (insert flags flag)
insert-IsFlags flags flag small low plain = (
  bit_or-lt 64 flags flag plain.0 small,
  eq_of_bits 64 (address (bit_or flags flag)) 0
      (address-lt (bit_or flags flag) (bit_or-lt 64 flags flag plain.0 small)) (omega arith)
      λ i lt. elim (Bool-cases (is_address_bit i)) [
        | inl here ↦ ground (
          arith,
          address-bit (bit_or flags flag) i lt,
          bit-bit_or i flags flag,
          low i lt here,
          address-bit flags i lt,
          ap (λ t. bit t i) (plain.1),
          zero-bit i,
        )
        | inr out ↦ ground (arith, address-bit (bit_or flags flag) i lt, zero-bit i)
      ],
)

present-low : (i : ℕ) → i < 64 → is_address_bit i ≡ true → bit present i ≡ 0
unfolding bit
present-low i lt here = ground (arith, has_bits present (λ j. j == 0) refl i lt)

accessed-low : (i : ℕ) → i < 64 → is_address_bit i ≡ true → bit accessed i ≡ 0
unfolding bit
accessed-low i lt here = ground (arith, has_bits accessed (λ j. j == 5) refl i lt)

user-low : (i : ℕ) → i < 64 → is_address_bit i ≡ true → bit user_accessible i ≡ 0
unfolding bit
user-low i lt here = ground (arith, has_bits user_accessible (λ j. j == 2) refl i lt)

flags_to_set-IsFlags : (flags : ℕ) → IsFlags flags → IsFlags (flags_to_set flags)
flags_to_set-IsFlags flags plain =
    insert-IsFlags (insert (insert flags present) accessed) user_accessible (omega arith) user-low (
      insert-IsFlags (insert flags present) accessed (omega arith) accessed-low
        (insert-IsFlags flags present (omega arith) present-low plain))

-- The alignment that `set` asks for.
abbrev pub alignment_of : ℕ → ℕ
alignment_of flags = if contains flags huge_page then large_page_size else base_page_size

-- The bits of PRESENT, USER_ACCESSIBLE and ACCESSED.
abbrev pub is_always_set : ℕ → Bool
is_always_set i = i == 0 || i == 2 || i == 5

-- A bit of the flags that an entry has.
abbrev pub flag_bit : ℕ → ℕ → ℕ
flag_bit flags i = if is_always_set i then 1 else bit flags i

-- The entry has the address, PRESENT, USER_ACCESSIBLE and ACCESSED, and all other bits of the flags,
-- those of the protection key as well.
pub record Holds (pa flags word : ℕ) : Type 0 where
  pub address_of : address word ≡ pa
  pub flags_of :
      (i : ℕ)
      → i < 64
      → bit (get_flags word) i ≡ (if ltb i 12 || i == 63 then flag_bit flags i else 0)
  pub key_bits : (i : ℕ) → 59 ≤ i → i < 63 → bit word i ≡ bit flags i

present-bit : (i : ℕ) → i < 64 → bit present i ≡ digit (i == 0)
unfolding bit
present-bit = has_bits present (λ j. j == 0) refl

accessed-bit : (i : ℕ) → i < 64 → bit accessed i ≡ digit (i == 5)
unfolding bit
accessed-bit = has_bits accessed (λ j. j == 5) refl

user-bit : (i : ℕ) → i < 64 → bit user_accessible i ≡ digit (i == 2)
unfolding bit
user-bit = has_bits user_accessible (λ j. j == 2) refl

flags_to_set-bit : (flags i : ℕ) → i < 64 → bit (flags_to_set flags) i ≡ flag_bit flags i
flags_to_set-bit flags i lt = ground (
  arith,
  bit-bit_or i (insert (insert flags present) accessed) user_accessible,
  bit-bit_or i (insert flags present) accessed,
  bit-bit_or i flags present,
  present-bit i lt,
  accessed-bit i lt,
  user-bit i lt,
  bit-le flags i,
)

set-bit :
    (pa flags i : ℕ)
    → IsFrame pa
    → i < 64
    → is_address_bit i ≡ false
    → bit (bit_or pa (flags_to_set flags)) i ≡ flag_bit flags i
set-bit pa flags i frame lt out = ground (
  arith,
  bit-bit_or i pa (flags_to_set flags),
  frame-bit pa i frame lt out,
  flags_to_set-bit flags i lt,
  bit-le (flags_to_set flags) i,
)

set-Holds_word :
    (pa flags : ℕ) → IsFrame pa → IsFlags flags → Holds pa flags (bit_or pa (flags_to_set flags))
set-Holds_word pa flags frame plain = record {
  address_of = address-bit_or pa (flags_to_set flags) frame (flags_to_set-IsFlags flags plain);
  flags_of = λ i lt.
      get_flags-bit (bit_or pa (flags_to_set flags)) i lt
      ∙ elim (Bool-cases (ltb i 12 || i == 63)) [
        | inl here ↦ rw here (set-bit pa flags i frame lt (ground arith))
        | inr out ↦ rw out refl
      ];
  key_bits = λ i ge lt.
      let other : is_always_set i ≡ false = ground arith in
      set-bit pa flags i frame (omega arith) (ground arith)
      ∙ ap (λ b. if b then 1 else bit flags i) other;
}

-- For a width of at most 59 bits, an aligned address below it and flags that carry no address, `set`
-- writes an entry from which `address` reads the address and `get_flags` the flags below bit 12 and
-- bit 63, with PRESENT, ACCESSED and USER_ACCESSIBLE set and all others as they were given. The
-- entry has the key of the flags.
pub set-Holds :
    (width pa flags : ℕ)
    → width ≤ 59
    → IsFlags flags
    → pa % alignment_of flags ≡ 0
    → pa < 2 ^ width
    → (word : ℕ) × (set width pa flags ≡ some word) × Holds pa flags word
unfolding set
set-Holds width pa flags narrow plain whole fits =
    let top : pa < 2 ^ 59 = omega (arith, pow_mono width 59 narrow) in
    let frame : IsFrame pa = (page_whole, top) in
    (bit_or pa (flags_to_set flags), sets, set-Holds_word pa flags frame plain)
  where
    page_whole : pa % base_page_size ≡ 0
    page_whole = elim (Bool-cases (contains flags huge_page)) [
      | inl marked ↦
          let large : pa % large_page_size ≡ 0 =
            ap (λ b. pa % (if b then large_page_size else base_page_size)) (sym marked) ∙ whole in
          omega arith
      | inr unmarked ↦
          ap (λ b. pa % (if b then large_page_size else base_page_size)) (sym unmarked) ∙ whole
    ]

    sets : set width pa flags ≡ some (bit_or pa (flags_to_set flags))
    sets = elim (Bool-cases (contains flags huge_page)) [
      | inl marked ↦
          let large : pa % large_page_size ≡ 0 =
            ap (λ b. pa % (if b then large_page_size else base_page_size)) (sym marked) ∙ whole in
          rw (marked, large, div-eq_of_lt fits) refl
      | inr unmarked ↦ rw (unmarked, page_whole, div-eq_of_lt fits) refl
    ]
