-- ===== src/Arch/Mpk/Pages.antt =====
-- Which pages `mpk_mem_set_key` tags.
use libhermit_mpk.Prelude.{
  ℕ, zero, suc, ◌+◌, ◌-◌, ◌*◌, ◌/◌, ◌%◌, ◌^◌, ◌<◌, ◌≤◌, ◌≡◌, refl, ap, ◌∙◌, true, false, Option,
  some, leb, ltb, arith, bit_and, u64_mod, add64, sub64, not64, align_down, Bool-cases, inl, inr,
}
use native.Mathlib.Nat.{
  mul-mod_left, div-mul-le_self, lt-div-mul-add, mod-eq-sub-div-mul, add-mod_right,
}
use libhermit_mpk.Prelude.Bits.{pow_mono, pow_pos, ones-bit_and}
use libhermit_mpk.Prelude.Align.{align_down-pow}
use libhermit_mpk.Arch.Mpk.{ceil_size, page_count, mpk_mem_set_key}

-- The mask rounds down to a multiple of the page size.
floor_lem :
    (k v : ℕ) → k < 64 → v < u64_mod → bit_and v (not64 (sub64 (2 ^ k) 1)) ≡ v / 2 ^ k * 2 ^ k
unfolding align_down
floor_lem k v hk hv = align_down-pow k v hk hv

sub_lem : (k : ℕ) → k < 64 → sub64 (2 ^ k) 1 ≡ 2 ^ k - 1
sub_lem k hk = omega (arith, pow_pos k, pow_mono k 63 (omega arith))

-- The size in whole pages.
pub record Ceil (page size size' : ℕ) : Type 0 where
  pub whole : size' % page ≡ 0
  pub covers : size ≤ size'
  pub least : size' < size + page

rest_lem : (k size : ℕ) → k < 64 → bit_and (sub64 (2 ^ k) 1) size ≡ size % 2 ^ k
rest_lem k size hk = ap (λ (t : ℕ). bit_and t size) (sub_lem k hk) ∙ ones-bit_and k size

up_lem :
    (k size : ℕ)
    → k < 64
    → size + 2 ^ k < u64_mod
    → bit_and (add64 size (2 ^ k)) (not64 (sub64 (2 ^ k) 1)) ≡ (size + 2 ^ k) / 2 ^ k * 2 ^ k
up_lem k size hk small =
    let sum : add64 size (2 ^ k) ≡ size + 2 ^ k = omega arith in
    ap (λ (t : ℕ). bit_and t (not64 (sub64 (2 ^ k) 1))) sum ∙ floor_lem k (size + 2 ^ k) hk small

ceil_size-Ceil :
    (k size : ℕ) → k < 64 → size + 2 ^ k < u64_mod → Ceil (2 ^ k) size (ceil_size (2 ^ k) size)
ceil_size-Ceil k size hk small = elim (Bool-cases (ltb 0 (bit_and (sub64 (2 ^ k) 1) size))) [
  | inl part ↦
      let some_rest : 0 < size % 2 ^ k = ground (arith, rest_lem k size hk) in
      rw (part, up_lem k size hk small)
        (record {
          whole = mul-mod_left ((size + 2 ^ k) / 2 ^ k) (2 ^ k);
          covers = omega (arith, lt-div-mul-add {a = size + 2 ^ k} (pow_pos k));
          least = omega (
            arith,
            some_rest,
            add-mod_right size (2 ^ k),
            mod-eq-sub-div-mul (size + 2 ^ k) (2 ^ k),
          );
        })
  | inr whole ↦
      let no_rest : size % 2 ^ k ≡ 0 = ground (arith, rest_lem k size hk) in
      rw whole (record { whole = no_rest; covers = omega arith; least = omega (arith, pow_pos k) })
]

whole_count : (page size : ℕ) → size % page ≡ 0 → page_count page size * page ≡ size
whole_count page size e =
    rw e (omega (arith, e, mod-eq-sub-div-mul size page, div-mul-le_self size page))

-- The pages from `first` on, `count` of them, are tagged with the key.
pub record Tags (page addr size key : ℕ) (r : ℕ × Option (ℕ × ℕ × ℕ)) : Type 0 where
  pub first : ℕ
  pub count : ℕ
  pub result : r ≡ (0, some (first, count, key))
  pub aligned : first ≡ addr / page * page
  pub enough : size ≤ count * page
  pub least : count * page < size + page
  pub reaches : leb (addr + size) (first + count * page) ≡ leb (addr % page + size) (count * page)

reach_lem :
    (page addr size first whole : ℕ)
    → first ≡ addr / page * page
    → leb (addr + size) (first + whole) ≡ leb (addr % page + size) whole
reach_lem page addr size first whole e =
    ground (arith, mod-eq-sub-div-mul addr page, div-mul-le_self addr page)

-- With protection keys and a key of at most 15, `mpk_mem_set_key` tags the pages from the page of the
-- address on, as few as together have `size` bytes. The size is rounded up without the offset of the
-- address in its page: the block is tagged up to its end exactly if the offset and the size fit into
-- those pages, so the last page of an unaligned block can be missed. The size must leave room for one
-- more page.
pub mpk_mem_set_key-Tags :
    (k addr size key : ℕ)
    → k < 64
    → addr < u64_mod
    → size + 2 ^ k < u64_mod
    → key ≤ 15
    → Tags (2 ^ k) addr size key (mpk_mem_set_key true (2 ^ k) addr size key)
unfolding mpk_mem_set_key
mpk_mem_set_key-Tags k addr size key hk ha small le =
    let valid : ltb 15 key ≡ false = ground arith in
    let c = ceil_size-Ceil k size hk small in
    let n = whole_count (2 ^ k) (ceil_size (2 ^ k) size) c.whole in
    rw valid (record {
      first = bit_and addr (not64 (sub64 (2 ^ k) 1));
      count = page_count (2 ^ k) (ceil_size (2 ^ k) size);
      result = refl;
      aligned = floor_lem k addr hk ha;
      enough = omega (arith, n, c.covers);
      least = omega (arith, n, c.least);
      reaches =
          reach_lem (2 ^ k) addr size _ (page_count (2 ^ k) (ceil_size (2 ^ k) size) * 2 ^ k)
            (floor_lem k addr hk ha);
    })

one_page : (count page size : ℕ) → count * page < size + page → size ≤ page → count * page ≤ page
one_page zero page size lt le = omega arith
one_page (suc zero) page size lt le = omega arith
one_page (suc (suc count)) page size lt le = absurd (omega arith)

-- The last byte of a block that starts inside a page can be missed: the size is rounded up by
-- itself, not with the offset of the address. A block of at most one page that reaches into a
-- second page is tagged in its first page only.
pub mpk_mem_set_key-missed :
    (k addr size key : ℕ)
    → k < 64
    → addr < u64_mod
    → key ≤ 15
    → size + 2 ^ k < u64_mod
    → size ≤ 2 ^ k
    → 2 ^ k < addr % 2 ^ k + size
    → (first : ℕ) × (count : ℕ) × (mpk_mem_set_key true (2 ^ k) addr size key
        ≡ (0, some (first, count, key)))
      × (first + count * 2 ^ k < addr + size)
mpk_mem_set_key-missed k addr size key hk ha le small one two =
    let t = mpk_mem_set_key-Tags k addr size key hk ha small le in
    (
      t.first,
      t.count,
      t.result,
      omega (
        arith,
        t.aligned,
        one_page t.count (2 ^ k) size t.least one,
        mod-eq-sub-div-mul addr (2 ^ k),
        div-mul-le_self addr (2 ^ k),
      ),
    )
