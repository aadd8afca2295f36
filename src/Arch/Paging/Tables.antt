-- ===== src/Arch/Paging/Tables.antt =====
-- New tables: the entry that `set` writes, the loop that clears, and the supply of frames.
use libhermit_mpk.Prelude.{
  ℕ, zero, suc, ◌+◌, ◌*◌, ◌<◌, ◌≤◌, ◌≡◌, ◌≢◌, ◌⊎◌, inl, inr, refl, ap, Bool-cases, ◌%◌, ◌∙◌, Bool,
  true, false, none, some, arith, if◌then◌else◌, add64, u64_mod, bit_or, bit_and, subst,
}
use libhermit_mpk.Prelude.Fields.{bit_and-mod}
use libhermit_mpk.Prelude.TestBit.{bit, bit-bit_or, bit-le}
use libhermit_mpk.Mm.FreeList.{FreeList}
use libhermit_mpk.Arch.PhysicalMem.{allocate, base_page_size}
use libhermit_mpk.Arch.Paging.Entry.{
  is_present, set, writable_flag, present, flags_to_set, accessed, user_accessible,
}
use libhermit_mpk.Arch.Paging.Page.{PageSize, map_level}
use libhermit_mpk.Arch.Paging.{Cpu, Memory, Machine, write, clear, ensure_table, create_table}
use libhermit_mpk.Arch.Paging.Slots.{
  IsLow, vpn, slot, table, entry_at-slot, subtable-table, Outside, slot-above, slot-of_table,
  table_small,
}

-- An entry that `set` writes is present.
low_bit : (word : ℕ) → bit word 0 ≡ 1 → is_present word ≡ true
unfolding is_present bit
low_bit word e = let masked : bit_and word 1 ≡ 1 = bit_and-mod 1 word ∙ e in rw masked refl

of_if : (b : Bool) (v w : ℕ) → (if b then some v else none) ≡ some w → v ≡ w
of_if true v w e = cc
of_if false v w e = absurd (cc)

pub set-is_present :
    (width physical_address flags word : ℕ)
    → set width physical_address flags ≡ some word
    → is_present word ≡ true
unfolding set bit
set-is_present width physical_address flags word e = low_bit word (
    subst (λ w. bit w 0 ≡ 1) (of_if _ _ word e)
      (omega (
        arith,
        bit-bit_or 0 physical_address (flags_to_set flags),
        bit-bit_or 0 (bit_or (bit_or flags present) accessed) user_accessible,
        bit-bit_or 0 (bit_or flags present) accessed,
        bit-bit_or 0 flags present,
        bit-le physical_address 0,
        bit-le flags 0,
      )))

-- The loop leaves what lies outside of the table, and clears what lies in it.
pub clear-outside :
    (n a w : ℕ) (memory : Memory)
    → a + 8 * n < u64_mod
    → (w < a) ⊎ (a + 8 * n ≤ w)
    → clear n a memory w ≡ memory w
unfolding clear
clear-outside zero a w memory small out = refl
clear-outside (suc n) a w memory small out =
    let e : add64 a 8 ≡ a + 8 = omega arith in
    rw e (
      clear-outside n (a + 8) w (write memory a 0) (omega arith)
        (elim out [ inl below ↦ inl (omega arith) | inr above ↦ inr (omega arith) ])
      ∙ ground arith)

pub clear-inside :
    (n j a : ℕ) (memory : Memory) → a + 8 * n < u64_mod → j < n → clear n a memory (a + 8 * j) ≡ 0
unfolding clear
clear-inside zero j a memory small lt = absurd (omega arith)
clear-inside (suc n) zero a memory small lt =
    let e : add64 a 8 ≡ a + 8 = omega arith in
    let f : a + 8 * 0 ≡ a = omega arith in
    rw (e, f)
      (clear-outside n (a + 8) a (write memory a 0) (omega arith) (inl (omega arith))
        ∙ ground arith)
clear-inside (suc n) (suc j) a memory small lt =
    let e : add64 a 8 ≡ a + 8 = omega arith in
    let f : a + 8 * suc j ≡ a + 8 + 8 * j = omega arith in
    rw (e, f) (clear-inside n j (a + 8) (write memory a 0) (omega arith) (omega arith))

-- Free frames for `k` new tables, one after the other.
pub data Supplies (cpu : Cpu) : ℕ → FreeList → Type 0 where
  enough : {frames : FreeList} → Supplies cpu 0 frames
  one_more :
      {k a word : ℕ} {frames frames' : FreeList}
      → allocate frames base_page_size ≡ some (some a, frames')
      → set cpu.width a writable_flag ≡ some word
      → Supplies cpu k frames'
      → Supplies cpu (suc k) frames

pub fewer :
    {cpu : Cpu} {k : ℕ} {frames : FreeList} → Supplies cpu (suc k) frames → Supplies cpu k frames
fewer {k = zero} s = enough
fewer {k = suc k} (one_more a e s) = one_more a e (fewer s)

-- `m'` is `m` with a table of the page at level `l`.
pub record Ensured (cpu : Cpu) (l page : ℕ) (m m' : Machine) : Type 0 where
  pub now : is_present (m'.memory (slot (suc l) page)) ≡ true
  pub rest : (w : ℕ) → Outside l page w → w ≢ slot (suc l) page → m'.memory w ≡ m.memory w
  pub kept : is_present (m.memory (slot (suc l) page)) ≡ true → m' ≡ m
  pub fresh :
      is_present (m.memory (slot (suc l) page)) ≡ false
      → (page' : ℕ) → table l page ≡ table l page'
      → m'.memory (slot l page') ≡ 0
  pub flushed : m'.flushed ≡ m.flushed
  pub ipis : m'.ipis ≡ m.ipis

abbrev with_table : ℕ → ℕ → ℕ → FreeList → Machine → Machine
with_table l page word frames m = record m {
  memory = clear 512 (table l page) (write m.memory (slot (suc l) page) word);
  frames = frames;
}

module _ (cpu : Cpu) (size : PageSize) (l page : ℕ) (low : IsLow page) (le : l ≤ 2) where
  created-Ensured :
      (word : ℕ) (frames : FreeList) (m : Machine)
      → is_present word ≡ true
      → is_present (m.memory (slot (suc l) page)) ≡ false
      → Ensured cpu l page m (with_table l page word frames m)
  created-Ensured word frames m here absent = record {
    now =
        ap is_present (
          clear-outside 512 (table l page) (slot (suc l) page)
            (write m.memory (slot (suc l) page) word) (table_small l page low le)
            (slot-above l (suc l) page page low (omega arith) (omega arith) l (omega arith))
          ∙ ground arith)
        ∙ here;
    rest = λ w out ne.
        clear-outside 512 (table l page) w (write m.memory (slot (suc l) page) word)
          (table_small l page low le) (out l (omega arith))
        ∙ ground arith;
    kept = λ e. absurd (cc);
    fresh = λ _ page' e.
        ap (clear 512 (table l page) (write m.memory (slot (suc l) page) word))
          (omega (arith, slot-of_table l page', e))
        ∙ clear-inside 512 (vpn l page' % 512) (table l page)
            (write m.memory (slot (suc l) page) word) (table_small l page low le) (omega arith);
    flushed = refl;
    ipis = refl;
  }

  pub ensure_table-Ensured :
      (k : ℕ) (m : Machine)
      → map_level size ≤ l
      → Supplies cpu (suc k) m.frames
      → (m' : Machine) × (ensure_table cpu size
            (suc l)
            (table (suc l) page)
            page
            (vpn (suc l) page % 512)
            m
          ≡ some m')
        × Ensured cpu l page m m'
        × Supplies cpu k m'.frames
  unfolding ensure_table create_table
  ensure_table-Ensured k m h (one_more {a} {word} {frames'} e sets s) =
      elim (Bool-cases (is_present (m.memory (slot (suc l) page)))) [
        | inl here ↦ (
          m,
          rw (entry_at-slot (suc l) page low (omega arith), here) refl,
          record {
            now = here;
            rest = λ w out ne. refl;
            kept = λ _. refl;
            fresh = λ absent. absurd (cc);
            flushed = refl;
            ipis = refl;
          },
          fewer (one_more e sets s),
        )
        | inr absent ↦ (
          with_table l page word frames' m,
          rw
              (
                entry_at-slot (suc l) page low (omega arith),
                absent,
                e,
                sets,
                subtable-table size l page h le low,
              )
              refl,
          created-Ensured word frames' m (set-is_present cpu.width a writable_flag word sets)
              absent,
          s,
        )
      ]
