-- ===== src/Arch/Paging/Slots.antt =====
-- Where the recursive mapping shows the tables of a page: at each level one array of words, in the
-- order of the pages.
use libhermit_mpk.Prelude.{
  ℕ, zero, suc, ◌+◌, ◌-◌, ◌*◌, ◌/◌, ◌%◌, ◌^◌, ◌<◌, ◌≤◌, ◌≡◌, refl, ap, ◌∙◌, some, arith, leb, ltb,
  bit_or, u64_mod, true, ◌≢◌, ◌⊎◌, inl, inr,
}
use native.Mathlib.Nat.{le_refl}
use native.Mathlib.Decide.{ℕ_discrete, dec_lt}
use libhermit_mpk.Prelude.Fields.{bit_and-mod, bit_or-shifted}
use libhermit_mpk.Arch.Paging.Page.{PageSize, map_level, table_index}
use libhermit_mpk.Arch.Paging.{pml4_address, entry_at, subtable}

-- The number of the entry at a level that serves a page, over the whole address space.
abbrev pub vpn : ℕ → ℕ → ℕ
vpn zero page = page / 2 ^ 12
vpn (suc zero) page = page / 2 ^ 21
vpn (suc (suc zero)) page = page / 2 ^ 30
vpn (suc (suc (suc l))) page = page / 2 ^ 39

abbrev pub level_base : ℕ → ℕ
level_base zero = u64_mod - 2 ^ 39
level_base (suc zero) = u64_mod - 2 ^ 30
level_base (suc (suc zero)) = u64_mod - 2 ^ 21
level_base (suc (suc (suc l))) = u64_mod - 2 ^ 12

-- The address of that entry, and of the table that holds it.
unfoldable pub slot : ℕ → ℕ → ℕ
slot l page = level_base l + 8 * vpn l page

unfoldable pub table : ℕ → ℕ → ℕ
table l page = level_base l + 4096 * (vpn l page / 512)

-- Pages of the lower half of the address space; the root table is not among them.
abbrev pub IsLow : ℕ → Type 0
IsLow page = page < 2 ^ 47

pub root_table : (page : ℕ) → IsLow page → table 3 page ≡ pml4_address
unfolding table
root_table page low = omega arith

index-vpn : (l page : ℕ) → l ≤ 3 → page / 2 ^ 12 / 2 ^ (l * 9) ≡ vpn l page
index-vpn zero page le = omega arith
index-vpn (suc zero) page le = omega arith
index-vpn (suc (suc zero)) page le = omega arith
index-vpn (suc (suc (suc zero))) page le = omega arith
index-vpn (suc (suc (suc (suc l)))) page le = absurd (omega arith)

pub table_index-eq :
    (size : PageSize) (l page : ℕ)
    → map_level size ≤ l
    → l ≤ 3
    → table_index size l page ≡ some (vpn l page % 512)
unfolding table_index
table_index-eq size l page h le =
    let below : leb (map_level size) l ≡ true = ground arith in
    rw (below, index-vpn l page le, bit_and-mod 9 (vpn l page)) refl

pub entry_at-slot :
    (l page : ℕ) → IsLow page → l ≤ 3 → entry_at (table l page) (vpn l page % 512) ≡ slot l page
unfolding slot table
entry_at-slot zero page low le = omega arith
entry_at-slot (suc zero) page low le = omega arith
entry_at-slot (suc (suc zero)) page low le = omega arith
entry_at-slot (suc (suc (suc l))) page low le = omega arith

shifted :
    (l page : ℕ)
    → l ≤ 2
    → IsLow page
    → bit_or (table (suc l) page * 2 ^ 9 % u64_mod) (vpn (suc l) page % 512 * 2 ^ 12 % u64_mod)
      ≡ table l page
unfolding table
shifted zero page le low =
    let e : table 1 page * 2 ^ 9 % u64_mod ≡ (u64_mod / 2 ^ 21 - 2 ^ 18 + vpn 2 page) * 2 ^ 21 =
      omega arith in
    ap (λ t. bit_or t (vpn 1 page % 512 * 2 ^ 12 % u64_mod)) e
    ∙ bit_or-shifted 21 (u64_mod / 2 ^ 21 - 2 ^ 18 + vpn 2 page)
        (vpn 1 page % 512 * 2 ^ 12 % u64_mod) (omega arith)
    ∙ omega arith
shifted (suc zero) page le low =
    let e : table 2 page * 2 ^ 9 % u64_mod ≡ (u64_mod / 2 ^ 21 - 2 ^ 9 + vpn 3 page) * 2 ^ 21 =
      omega arith in
    ap (λ t. bit_or t (vpn 2 page % 512 * 2 ^ 12 % u64_mod)) e
    ∙ bit_or-shifted 21 (u64_mod / 2 ^ 21 - 2 ^ 9 + vpn 3 page)
        (vpn 2 page % 512 * 2 ^ 12 % u64_mod) (omega arith)
    ∙ omega arith
shifted (suc (suc zero)) page le low =
    let e : table 3 page * 2 ^ 9 % u64_mod ≡ (u64_mod / 2 ^ 21 - 1) * 2 ^ 21 = omega arith in
    ap (λ t. bit_or t (vpn 3 page % 512 * 2 ^ 12 % u64_mod)) e
    ∙ bit_or-shifted 21 (u64_mod / 2 ^ 21 - 1) (vpn 3 page % 512 * 2 ^ 12 % u64_mod) (omega arith)
    ∙ omega arith
shifted (suc (suc (suc l))) page le low = absurd (omega arith)

pub subtable-table :
    (size : PageSize) (l page : ℕ)
    → map_level size ≤ l
    → l ≤ 2
    → IsLow page
    → subtable size (suc l) (table (suc l) page) page ≡ some (table l page)
unfolding subtable
subtable-table size l page h le low =
    let over : ltb (map_level size) (suc l) ≡ true = ground arith in
    rw (over, table_index-eq size (suc l) page (omega arith) (omega arith))
      (ap some (shifted l page le low))

pub vpn-suc : (l page : ℕ) → l ≤ 2 → vpn (suc l) page ≡ vpn l page / 512
vpn-suc zero page le = omega arith
vpn-suc (suc zero) page le = omega arith
vpn-suc (suc (suc zero)) page le = omega arith
vpn-suc (suc (suc (suc l))) page le = absurd (omega arith)

-- A table holds the words of its pages.
pub slot-table :
    (l page : ℕ) → (table l page ≤ slot l page) × (slot l page + 8 ≤ table l page + 4096)
unfolding slot table
slot-table l page = omega arith

pub vpn-eq_of_slot : (l page page' : ℕ) → slot l page ≡ slot l page' → vpn l page ≡ vpn l page'
unfolding slot
vpn-eq_of_slot l page page' e = omega arith

pub slot-vpn : (l page page' : ℕ) → vpn l page ≡ vpn l page' → slot l page ≡ slot l page'
unfolding slot
slot-vpn l page page' e = omega arith

pub table-eq_of_vpn :
    (l page page' : ℕ) → l ≤ 2 → vpn (suc l) page ≡ vpn (suc l) page' → table l page ≡ table l page'
unfolding table
table-eq_of_vpn l page page' le e = omega (arith, vpn-suc l page le, vpn-suc l page' le)

pub vpn-eq_of_table :
    (l page page' : ℕ) → l ≤ 2 → table l page ≡ table l page' → vpn (suc l) page ≡ vpn (suc l) page'
unfolding table
vpn-eq_of_table l page page' le e = omega (arith, vpn-suc l page le, vpn-suc l page' le)

-- The array of a level lies below those of the higher levels.
pub level_end : (l page : ℕ) → IsLow page → l ≤ 2 → slot l page + 8 ≤ level_base (suc l)
unfolding slot
level_end zero page low le = omega arith
level_end (suc zero) page low le = omega arith
level_end (suc (suc zero)) page low le = omega arith
level_end (suc (suc (suc l))) page low le = absurd (omega arith)

base_step : (l : ℕ) → level_base l ≤ level_base (suc l)
base_step zero = omega arith
base_step (suc zero) = omega arith
base_step (suc (suc zero)) = omega arith
base_step (suc (suc (suc l))) = omega arith

pub level_base_mono : (k l : ℕ) → k ≤ l → level_base k ≤ level_base l
level_base_mono k zero le = let e : k ≡ 0 = omega arith in rw e (omega arith)
level_base_mono k (suc l) le = elim (ℕ_discrete k (suc l)) [
  | yes e ↦ rw e (omega arith)
  | no ne ↦ omega (arith, level_base_mono k l (omega arith), base_step l)
]

pub level_base-le : (l page : ℕ) → (level_base l ≤ slot l page) × (level_base l ≤ table l page)
unfolding slot table
level_base-le l page = omega arith

-- A word that lies in no table of a page from level `l` down.
abbrev pub Outside : ℕ → ℕ → ℕ → Type 0
Outside l page w = (j : ℕ) → j ≤ l → (w < table j page) ⊎ (table j page + 4096 ≤ w)

table_end : (l page : ℕ) → IsLow page → l ≤ 2 → table l page + 4096 ≤ level_base (suc l)
unfolding table
table_end zero page low le = omega arith
table_end (suc zero) page low le = omega arith
table_end (suc (suc zero)) page low le = omega arith
table_end (suc (suc (suc l))) page low le = absurd (omega arith)

-- A word of a higher level.
pub slot-above : (l k page page' : ℕ) → IsLow page → l < k → k ≤ 3 → Outside l page (slot k page')
slot-above l k page page' low lt le j jle = inr (
    omega (
      arith,
      table_end j page low (omega arith),
      level_base_mono (suc j) k (omega arith),
      level_base-le k page',
    ))

tables_apart :
    (l page page' : ℕ)
    → table l page ≢ table l page'
    → (slot l page' < table l page) ⊎ (table l page + 4096 ≤ slot l page')
unfolding slot table
tables_apart l page page' ne = elim (dec_lt (slot l page') (table l page)) [
  | yes below ↦ inl below
  | no not_below ↦ inr (omega arith)
]

table-vpn : (l page page' : ℕ) → vpn l page ≡ vpn l page' → table l page ≡ table l page'
unfolding table
table-vpn l page page' e = omega arith

-- Pages that share a table share those above it.
tables_differ :
    (l k page page' : ℕ)
    → k ≤ l
    → l ≤ 2
    → table l page ≢ table l page'
    → table k page ≢ table k page'
tables_differ zero k page page' le lo ne = let e : k ≡ 0 = omega arith in rw e ne
tables_differ (suc l) k page page' le lo ne = elim (ℕ_discrete k (suc l)) [
  | yes e ↦ rw e ne
  | no other ↦
      tables_differ l k page page' (omega arith) (omega arith)
        λ e. ne (table-vpn (suc l) page page' (vpn-eq_of_table l page page' (omega arith) e))
]

-- A word of another table of the same level.
pub slot-apart :
    (l k page page' : ℕ)
    → IsLow page
    → IsLow page'
    → k ≤ l
    → l ≤ 2
    → table l page ≢ table l page'
    → Outside l page (slot k page')
slot-apart l k page page' low low' le lo ne j jle = elim (dec_lt j k) [
  | yes lt ↦ slot-above j k page page' low lt (omega arith) j (omega arith)
  | no not_lt ↦ elim (ℕ_discrete j k) [
    | yes e ↦ rw e (tables_apart k page page' (tables_differ l k page page' le lo ne))
    | no other ↦ inl (
        omega (
          arith,
          level_end k page' low' (omega arith),
          level_base_mono (suc k) j (omega arith),
          level_base-le j page,
        ))
  ]
]

pub slot-ne : (k l page page' : ℕ) → IsLow page' → k < l → l ≤ 3 → slot k page' ≢ slot l page
slot-ne k l page page' low lt le e = omega (
  arith,
  e,
  level_end k page' low (omega arith),
  level_base_mono (suc k) l (omega arith),
  level_base-le l page,
)

pub slot-of_table : (l page : ℕ) → slot l page ≡ table l page + 8 * (vpn l page % 512)
unfolding slot table
slot-of_table l page = omega arith

pub table_small : (l page : ℕ) → IsLow page → l ≤ 2 → table l page + 8 * 512 < u64_mod
table_small l page low le =
    omega (arith, table_end l page low le, level_base_mono (suc l) 3 (omega arith))

pub not-Outside : (l page : ℕ) → Outside l page (slot l page) → ⊥
not-Outside l page out = elim (out l (le_refl l)) [
  | inl below ↦ omega (arith, slot-table l page)
  | inr above ↦ omega (arith, slot-table l page)
]
