-- ===== src/Arch/Paging/Words.antt =====
-- What the fields of an entry are: `address`, `get_flags`, `set` and the protection key, bit by bit.
use libhermit_mpk.Prelude.{
  ℕ, zero, suc, ◌+◌, ◌-◌, ◌/◌, ◌%◌, ◌^◌, ◌<◌, ◌≤◌, ◌≡◌, refl, ap, sym, ◌∙◌, Bool, true, false, ◌&&◌,
  ◌||◌, not, arith, leb, ltb, ◌==◌, ==_iff, if◌then◌else◌, sub64, u64_mod, Bool-cases, bit_or,
  bit_and, inl, inr, not64,
}
use native.Mathlib.Nat.{div-one, pow-succ', div-div-eq-div-mul}
use libhermit_mpk.Prelude.TestBit.{
  bit, bit-bit_and, bit-bit_or, bit-le, bit_or-lt, bit_and-lt, zero-bit,
}
use libhermit_mpk.Prelude.Fields.{
  all_below, holds_below, low_bits, high_bits, bit_and-mod, eq_of_bits,
}
use libhermit_mpk.Arch.Paging.Entry.{
  address, get_flags, with_pkey, key_mask, shift_key, execute_disable_flag,
}
use libhermit_mpk.Arch.PhysicalMem.{base_page_size}

-- The bits of the masks.
abbrev pub is_address_bit : ℕ → Bool
is_address_bit i = leb 12 i && ltb i 59

abbrev pub is_key_bit : ℕ → Bool
is_key_bit i = leb 59 i && ltb i 63

abbrev pub digit : Bool → ℕ
digit b = if b then 1 else 0

-- A constant has exactly the bits that a test names.
abbrev pub all_bits : ℕ → (ℕ → Bool) → Bool
all_bits c test = all_below 64 (λ i. bit c i == digit (test i))

pub has_bits :
    (c : ℕ) (test : ℕ → Bool) → all_bits c test ≡ true → (i : ℕ) → i < 64 → bit c i ≡ digit (test i)
has_bits c test e i lt = (==_iff _ _).0 (holds_below 64 (λ i. bit c i == digit (test i)) e i lt)

page_mask-bit : (i : ℕ) → i < 64 → bit (not64 (sub64 base_page_size 1)) i ≡ digit (leb 12 i)
unfolding bit
page_mask-bit = has_bits (not64 (sub64 base_page_size 1)) (λ i. leb 12 i) refl

nx_mask-bit : (i : ℕ) → i < 64 → bit (not64 execute_disable_flag) i ≡ digit (not (i == 63))
unfolding bit
nx_mask-bit = has_bits (not64 execute_disable_flag) (λ i. not (i == 63)) refl

key_mask-bit : (i : ℕ) → i < 64 → bit key_mask i ≡ digit (not (is_key_bit i))
unfolding bit
key_mask-bit = has_bits key_mask (λ i. not (is_key_bit i)) refl

abbrev flag_mask : ℕ
flag_mask = bit_or (sub64 base_page_size 1) execute_disable_flag

flag_mask-bit : (i : ℕ) → i < 64 → bit flag_mask i ≡ digit (ltb i 12 || i == 63)
unfolding bit
flag_mask-bit = has_bits flag_mask (λ i. ltb i 12 || i == 63) refl

pub get_flags-bit :
    (word i : ℕ) → i < 64 → bit (get_flags word) i ≡ (if ltb i 12 || i == 63 then bit word i else 0)
unfolding get_flags
get_flags-bit word i lt =
    ground (arith, bit-bit_and i word flag_mask, flag_mask-bit i lt, bit-le word i)

pub address-bit :
    (word i : ℕ) → i < 64 → bit (address word) i ≡ (if is_address_bit i then bit word i else 0)
unfolding address
address-bit word i lt = ground (
  arith,
  bit-bit_and i
      (bit_and (bit_and word (not64 (sub64 base_page_size 1))) (not64 execute_disable_flag))
      key_mask,
  bit-bit_and i (bit_and word (not64 (sub64 base_page_size 1))) (not64 execute_disable_flag),
  bit-bit_and i word (not64 (sub64 base_page_size 1)),
  page_mask-bit i lt,
  nx_mask-bit i lt,
  key_mask-bit i lt,
  bit-le word i,
)

abbrev agrees : ℕ → ℕ → Bool
agrees key i = bit (shift_key key) i == (if is_key_bit i then bit key (i - 59) else 0)

-- The new key, and what `with_pkey` leaves.
shift_key-bit :
    (key i : ℕ)
    → key ≤ 15
    → i < 64
    → bit (shift_key key) i ≡ (if is_key_bit i then bit key (i - 59) else 0)
unfolding bit
shift_key-bit key i le lt = (==_iff _ _).0 (
    holds_below 64 (agrees key)
      (holds_below 16 (λ k. all_below 64 (agrees k)) refl key (omega arith)) i lt)

pub with_pkey-bit :
    (word key i : ℕ)
    → key ≤ 15
    → i < 64
    → bit (with_pkey word key) i ≡ (if is_key_bit i then bit key (i - 59) else bit word i)
unfolding with_pkey
with_pkey-bit word key i le lt = ground (
  arith,
  bit-bit_or i (bit_and word key_mask) (shift_key key),
  bit-bit_and i word key_mask,
  key_mask-bit i lt,
  shift_key-bit key i le lt,
  bit-le word i,
  bit-le key (i - 59),
)

-- The number of the key of an entry.
abbrev pub key_of : ℕ → ℕ
key_of word = bit_and (word / 2 ^ 59) 0xf

pub address-lt : (word : ℕ) → word < u64_mod → address word < u64_mod
unfolding address
address-lt word h = bit_and-lt 64 _ _ (bit_and-lt 64 _ _ (bit_and-lt 64 _ _ h))

get_flags-lt : (word : ℕ) → word < u64_mod → get_flags word < u64_mod
unfolding get_flags
get_flags-lt word h = bit_and-lt 64 _ _ h

pub with_pkey-lt : (word key : ℕ) → word < u64_mod → with_pkey word key < u64_mod
unfolding with_pkey
with_pkey-lt word key h =
    bit_or-lt 64 (bit_and word key_mask) (shift_key key) (bit_and-lt 64 word key_mask h)
      (omega arith)

div-bit : (k i x : ℕ) → bit (x / 2 ^ k) i ≡ bit x (k + i)
unfolding bit
div-bit zero i x =
    let index : i ≡ 0 + i = omega arith in ap (λ t. bit t i) (div-one x) ∙ ap (bit x) index
div-bit (suc k) i x =
    let index : suc (k + i) ≡ suc k + i = omega arith in
    ap (λ t. bit t i) (ap (λ t. x / t) (pow-succ' 2 k) ∙ sym (div-div-eq-div-mul x 2 (2 ^ k)))
    ∙ div-bit k i (x / 2)
    ∙ ap (bit x) index

nibble-bit : (i : ℕ) → i < 64 → bit 0xf i ≡ digit (ltb i 4)
unfolding bit
nibble-bit = has_bits 0xf (λ i. ltb i 4) refl

key_of-with_pkey : (word key : ℕ) → key ≤ 15 → key_of (with_pkey word key) ≡ key
key_of-with_pkey word key le =
    let small : key_of (with_pkey word key) < 2 ^ 4 =
      omega (arith, bit_and-mod 4 (with_pkey word key / 2 ^ 59)) in
    eq_of_bits 4 (key_of (with_pkey word key)) key small (omega arith) λ i lt.
      let index : 59 + i - 59 ≡ i = omega arith in
      ground (
        arith,
        bit-bit_and i (with_pkey word key / 2 ^ 59) 0xf,
        nibble-bit i (omega arith),
        div-bit 59 i (with_pkey word key),
        with_pkey-bit word key (59 + i) le (omega arith),
        ap (bit key) index,
        bit-le key i,
      )

-- `word'` has the key in the four bits of the key, and every other bit of `word`.
pub record HasKey (key word word' : ℕ) : Type 0 where
  pub own : key_of word' ≡ key
  pub bits :
      (i : ℕ)
      → i < 64
      → bit word' i ≡ (if leb 59 i && ltb i 63 then bit key (i - 59) else bit word i)

pub with_pkey-HasKey : (word key : ℕ) → key ≤ 15 → HasKey key word (with_pkey word key)
with_pkey-HasKey word key le = record {
  own = key_of-with_pkey word key le;
  bits = λ i lt. with_pkey-bit word key i le lt;
}

-- The new key, and the rest of the entry as it was.
pub record Keyed (word key word' : ℕ) : Type 0 where
  pub own : key_of word' ≡ key
  pub address_kept : address word' ≡ address word
  pub flags_kept : get_flags word' ≡ get_flags word

-- With a key of at most 15, the word that `set_pkey_on_page_table_entry` writes has the key, and the
-- address and the flags of the old word.
pub with_pkey-Keyed :
    (word key : ℕ) → word < u64_mod → key ≤ 15 → Keyed word key (with_pkey word key)
with_pkey-Keyed word key h le = record {
  own = key_of-with_pkey word key le;
  address_kept =
      eq_of_bits 64 _ _ (address-lt _ (with_pkey-lt word key h)) (address-lt word h) (λ i lt.
        ground (
          arith,
          address-bit (with_pkey word key) i lt,
          address-bit word i lt,
          with_pkey-bit word key i le lt,
        ));
  flags_kept =
      eq_of_bits 64 _ _ (get_flags-lt _ (with_pkey-lt word key h)) (get_flags-lt word h) (λ i lt.
        ground (
          arith,
          get_flags-bit (with_pkey word key) i lt,
          get_flags-bit word i lt,
          with_pkey-bit word key i le lt,
        ));
}

-- Flags that carry no address.
abbrev pub IsFlags : ℕ → Type 0
IsFlags flags = (flags < u64_mod) × (address flags ≡ 0)

-- A frame that an entry can hold.
abbrev pub IsFrame : ℕ → Type 0
IsFrame pa = (pa % base_page_size ≡ 0) × (pa < 2 ^ 59)

has_low : (i : ℕ) → i < 64 → bit (2 ^ 12 - 1) i ≡ digit (ltb i 12)
unfolding bit
has_low = has_bits (2 ^ 12 - 1) (λ i. ltb i 12) refl

has_high : (i : ℕ) → i < 64 → bit (2 ^ 59 - 1) i ≡ digit (ltb i 59)
unfolding bit
has_high = has_bits (2 ^ 59 - 1) (λ i. ltb i 59) refl

pub frame-bit : (pa i : ℕ) → IsFrame pa → i < 64 → is_address_bit i ≡ false → bit pa i ≡ 0
frame-bit pa i frame lt out = elim (Bool-cases (ltb i 12)) [
  | inl low ↦ low_bits 12 i pa frame.0 (has_low i lt ∙ ap digit low)
  | inr high ↦
      let above : ltb i 59 ≡ false = ground arith in
      high_bits 59 i pa frame.1 (has_high i lt ∙ ap digit above)
]

flags-bit : (flags i : ℕ) → IsFlags flags → i < 64 → is_address_bit i ≡ true → bit flags i ≡ 0
flags-bit flags i plain lt here =
    let of_address : bit flags i ≡ bit (address flags) i = ground (arith, address-bit flags i lt) in
    of_address ∙ ap (λ t. bit t i) (plain.1) ∙ zero-bit i

module _ (pa flags : ℕ) (frame : IsFrame pa) (plain : IsFlags flags) where
  word-lt : bit_or pa flags < u64_mod
  word-lt = bit_or-lt 64 pa flags (omega (arith, frame.1)) plain.0

  -- `address` undoes `|` with flags.
  pub address-bit_or : address (bit_or pa flags) ≡ pa
  address-bit_or =
      eq_of_bits 64 (address (bit_or pa flags)) pa (address-lt (bit_or pa flags) word-lt)
        (omega (arith, frame.1))
        λ i lt. elim (Bool-cases (is_address_bit i)) [
          | inl here ↦ ground (
            arith,
            address-bit (bit_or pa flags) i lt,
            bit-bit_or i pa flags,
            flags-bit flags i plain lt here,
          )
          | inr out ↦
              ground (arith, address-bit (bit_or pa flags) i lt, frame-bit pa i frame lt out)
        ]

  pub get_flags-bit_or : get_flags (bit_or pa flags) ≡ get_flags flags
  get_flags-bit_or =
      eq_of_bits 64 (get_flags (bit_or pa flags)) (get_flags flags)
        (get_flags-lt (bit_or pa flags) word-lt) (get_flags-lt flags plain.0)
        λ i lt. elim (Bool-cases (is_address_bit i)) [
          | inl here ↦
              ground (arith, get_flags-bit (bit_or pa flags) i lt, get_flags-bit flags i lt)
          | inr out ↦ ground (
            arith,
            get_flags-bit (bit_or pa flags) i lt,
            get_flags-bit flags i lt,
            bit-bit_or i pa flags,
            frame-bit pa i frame lt out,
          )
        ]
