-- ===== src/Arch/Paging/Maps.antt =====
-- `map_page`: what it writes, and what the walk finds afterwards.
use libhermit_mpk.Prelude.{
  ℕ, zero, suc, ◌+◌, ◌-◌, ◌<◌, ◌≤◌, ◌≡◌, ◌≢◌, ◌⊎◌, inl, inr, refl, ap, sym, ◌∙◌, Bool, true, false,
  Option, none, some, arith, if◌then◌else◌, Bool-cases, bit_or, ◌∷◌, subst,
}
use native.Mathlib.Nat.{le_refl}
use native.Mathlib.Decide.{ℕ_discrete}
use libhermit_mpk.Arch.Paging.Entry.{is_present, set, dirty}
use libhermit_mpk.Arch.Paging.Page.{PageSize, map_level, map_extra_flag}
use libhermit_mpk.Arch.Paging.{Cpu, Memory, Machine, write, flush_if, walk, map_page}
use libhermit_mpk.Arch.Paging.Slots.{
  IsLow, vpn, slot, table, Outside, slot-table, slot-above, slot-apart, vpn-eq_of_slot,
  vpn-eq_of_table, table-eq_of_vpn, slot-vpn, slot-ne, not-Outside,
}
use libhermit_mpk.Arch.Paging.Tables.{Ensured, ensure_table-Ensured, Supplies, set-is_present}
use libhermit_mpk.Arch.Paging.Walks.{
  walk-last, walk-step, walk-same, enter, map_page-last, map_page-step,
}

abbrev pub is_mapped : Option (Option ℕ) → Bool
is_mapped (some (some word)) = true
is_mapped other = false

-- What `map_page` does from level `l` down, for the word that it enters. The pages that share the
-- table of the level are looked up from that table.
pub record Maps (cpu : Cpu) (size : PageSize) (l page word spare : ℕ) (m : Machine)
    (r : Bool × Machine) : Type 0 where
  pub frame : (w : ℕ) → Outside l page w → r.1.memory w ≡ m.memory w
  pub own : walk size l (table l page) page r.1.memory ≡ some (some word)
  pub others :
      (page' : ℕ)
      → IsLow page'
      → table l page ≡ table l page'
      → vpn (map_level size) page ≢ vpn (map_level size) page'
      → walk size l (table l page') page' r.1.memory ≡ walk size l (table l page') page' m.memory
  pub updated : r.0 ≡ is_mapped (walk size l (table l page) page m.memory)
  pub flushed : r.1.flushed ≡ (if r.0 then page ∷ m.flushed else m.flushed)
  pub ipis : r.1.ipis ≡ m.ipis
  pub supplied : Supplies cpu spare r.1.frames

flush_if-memory : (b : Bool) (page : ℕ) (m : Machine) → (flush_if b page m).memory ≡ m.memory
flush_if-memory true page m = refl
flush_if-memory false page m = refl

entered_flushed :
    (b : Bool) (page : ℕ) (m : Machine)
    → (flush_if b page m).flushed ≡ (if b then page ∷ m.flushed else m.flushed)
entered_flushed true page m = refl
entered_flushed false page m = refl

entered_ipis : (b : Bool) (page : ℕ) (m : Machine) → (flush_if b page m).ipis ≡ m.ipis
entered_ipis true page m = refl
entered_ipis false page m = refl

entered_frames : (b : Bool) (page : ℕ) (m : Machine) → (flush_if b page m).frames ≡ m.frames
entered_frames true page m = refl
entered_frames false page m = refl

mapped_if : (b : Bool) (word : ℕ) → is_mapped (some (if b then some word else none)) ≡ b
mapped_if true word = refl
mapped_if false word = refl

module _ (cpu : Cpu) (size : PageSize) (page : ℕ) (low : IsLow page) where
  -- A page whose next table is not there, or whose entry is cleared, is not mapped.
  walk-absent :
      (l page' : ℕ) (memory : Memory)
      → IsLow page'
      → map_level size ≤ l
      → l ≤ 3
      → memory (slot l page') ≡ 0
      → walk size l (table l page') page' memory ≡ some none
  unfolding is_present
  walk-absent zero page' memory low' h le e =
      rw (walk-last size page' low' 0 memory (omega arith) le, e) refl
  walk-absent (suc l) page' memory low' h le e = elim (ℕ_discrete (suc l) (map_level size)) [
    | yes last ↦ rw (walk-last size page' low' (suc l) memory last le, e) refl
    | no ne ↦ rw (walk-step size page' low' l memory (omega arith) (omega arith), e) refl
  ]

  module _ (physical_address flags word : ℕ) (here : is_present word ≡ true) where
    entered_memory :
        (l : ℕ) (m : Machine)
        → (enter size page low cpu physical_address flags l word m).1.memory
          ≡ write m.memory (slot l page) word
    entered_memory l m =
        flush_if-memory (is_present (m.memory (slot l page))) page
          (record m { memory = write m.memory (slot l page) word })

    not_here :
        (l : ℕ) (m : Machine) (w : ℕ)
        → (w < table l page) ⊎ (table l page + 4096 ≤ w)
        → write m.memory (slot l page) word w ≡ m.memory w
    not_here l m w out = ground (arith, slot-table l page)

    other :
        (l : ℕ) (m : Machine) (page' : ℕ)
        → slot l page ≢ slot l page'
        → write m.memory (slot l page) word (slot l page') ≡ m.memory (slot l page')
    other l m page' ne = ground arith

    walk-same-last :
        (l : ℕ) (m : Machine)
        → l ≡ map_level size
        → l ≤ 3
        → walk size l
            (table l page)
            page
            (enter size page low cpu physical_address flags l word m).1.memory
          ≡ some (some word)
    walk-same-last l m e le =
        let own : write m.memory (slot l page) word (slot l page) ≡ word = ground arith in
        rw
          (
            walk-last size page low l
                (enter size page low cpu physical_address flags l word m).1.memory e le,
            entered_memory l m,
            own,
            here,
          )
          refl

    entered :
        (l spare : ℕ) (m : Machine)
        → l ≡ map_level size
        → l ≤ 3
        → Supplies cpu spare m.frames
        → Maps cpu size l page word spare m
            (enter size page low cpu physical_address flags l word m)
    entered l spare m e le s = record {
      frame = λ w out. ap (λ f. f w) (entered_memory l m) ∙ not_here l m w (out l (le_refl l));
      own = walk-same-last l m e le;
      others = λ page' low' _ ne.
          rw
            (
              walk-last size page' low' l
                  (enter size page low cpu physical_address flags l word m).1.memory e le,
              walk-last size page' low' l m.memory e le,
              entered_memory l m,
              other l m page' (λ same.
                  ne (subst (λ n. vpn n page ≡ vpn n page') e (vpn-eq_of_slot l page page' same))),
            )
            refl;
      updated =
          rw (walk-last size page low l m.memory e le)
            (sym (mapped_if (is_present (m.memory (slot l page))) (m.memory (slot l page))));
      flushed =
          entered_flushed (is_present (m.memory (slot l page))) page
            (record m { memory = write m.memory (slot l page) word });
      ipis =
          entered_ipis (is_present (m.memory (slot l page))) page
            (record m { memory = write m.memory (slot l page) word });
      supplied =
          subst (Supplies cpu spare)
            (sym (
              entered_frames (is_present (m.memory (slot l page))) page
                (record m { memory = write m.memory (slot l page) word })))
            s;
    }

    module _ (l spare : ℕ) (m m' : Machine) (r : Bool × Machine) (h : map_level size ≤ l)
        (le : l ≤ 2) (t : Ensured cpu l page m m') (d : Maps cpu size l page word spare m' r) where
      own_slot : r.1.memory (slot (suc l) page) ≡ m'.memory (slot (suc l) page)
      own_slot =
          d.frame (slot (suc l) page)
            (slot-above l (suc l) page page low (omega arith) (omega arith))

      own_present : is_present (r.1.memory (slot (suc l) page)) ≡ true
      own_present = ap is_present own_slot ∙ t.now

      step_frame : (w : ℕ) → Outside (suc l) page w → r.1.memory w ≡ m.memory w
      step_frame w out =
          d.frame w (λ j lt. out j (omega arith))
          ∙ t.rest w (λ j lt. out j (omega arith))
              (λ e. not-Outside (suc l) page (subst (Outside (suc l) page) e out))

      -- What the new table says of a page that shares it.
      before :
          (page' : ℕ)
          → IsLow page'
          → table l page ≡ table l page'
          → walk size l (table l page') page' m'.memory ≡ (
              if is_present (m.memory (slot (suc l) page))
              then walk size l (table l page') page' m.memory
              else some none)
      before page' low' tables = elim (Bool-cases (is_present (m.memory (slot (suc l) page)))) [
        | inl old ↦ rw (old, t.kept old) refl
        | inr absent ↦
            rw absent
              (walk-absent l page' m'.memory low' h (omega arith) (t.fresh absent page' tables))
      ]

      shared :
          (page' : ℕ)
          → IsLow page'
          → slot (suc l) page ≡ slot (suc l) page'
          → vpn (map_level size) page ≢ vpn (map_level size) page'
          → walk size (suc l) (table (suc l) page') page' r.1.memory
            ≡ walk size (suc l) (table (suc l) page') page' m.memory
      shared page' low' e ne =
          let pages : vpn (suc l) page ≡ vpn (suc l) page' = vpn-eq_of_slot (suc l) page page' e in
          let tables : table l page ≡ table l page' = table-eq_of_vpn l page page' le pages in
          rw
            (
              walk-step size page' low' l r.1.memory h le,
              walk-step size page' low' l m.memory h le,
              ← e,
              own_present,
              d.others page' low' tables ne,
            )
            (before page' low' tables)

      apart :
          (page' : ℕ)
          → IsLow page'
          → slot (suc l) page ≢ slot (suc l) page'
          → walk size (suc l) (table (suc l) page') page' r.1.memory
            ≡ walk size (suc l) (table (suc l) page') page' m.memory
      apart page' low' ne =
          walk-same size page' low' (suc l) m.memory r.1.memory (omega arith) (omega arith) λ k kl.
            elim (ℕ_discrete k (suc l)) [
              | yes e ↦ rw e (
                  d.frame (slot (suc l) page')
                    (slot-above l (suc l) page page' low (omega arith) (omega arith))
                  ∙ t.rest (slot (suc l) page')
                      (slot-above l (suc l) page page' low (omega arith) (omega arith))
                      (λ same. ne (sym same)))
              | no below ↦
                  d.frame (slot k page')
                    (slot-apart l k page page' low low' (omega arith) le other_table)
                  ∙ t.rest (slot k page')
                      (slot-apart l k page page' low low' (omega arith) le other_table)
                      (slot-ne k (suc l) page page' low' (omega arith) (omega arith))
            ]
        where
          other_table : table l page ≢ table l page'
          other_table e = ne (slot-vpn (suc l) page page' (vpn-eq_of_table l page page' le e))

      step_updated : r.0 ≡ is_mapped (walk size (suc l) (table (suc l) page) page m.memory)
      step_updated =
          d.updated
          ∙ ap is_mapped (before page low refl ∙ sym (walk-step size page low l m.memory h le))

      stepped : Maps cpu size (suc l) page word spare m r
      stepped = record {
        frame = step_frame;
        own = rw (walk-step size page low l r.1.memory h le, own_present) d.own;
        others = λ page' low' _ ne. elim (ℕ_discrete (slot (suc l) page) (slot (suc l) page')) [
          | yes e ↦ shared page' low' e ne
          | no other ↦ apart page' low' other
        ];
        updated = step_updated;
        flushed = d.flushed ∙ ap (λ ps. if r.0 then page ∷ ps else ps) t.flushed;
        ipis = d.ipis ∙ t.ipis;
        supplied = d.supplied;
      }

  module _ (physical_address flags word : ℕ)
      (sets : set cpu.width physical_address (bit_or (bit_or dirty (map_extra_flag size)) flags)
        ≡ some word) where
    here : is_present word ≡ true
    here =
        set-is_present cpu.width physical_address
          (bit_or (bit_or dirty (map_extra_flag size)) flags) word sets

    abbrev Result : ℕ → ℕ → Machine → Type 0
    Result l spare m =
        (r : Bool × Machine) × (map_page cpu size l (table l page) page physical_address flags m
          ≡ some r)
        × Maps cpu size l page word spare m r

    last_Maps :
        (l spare : ℕ) (m : Machine)
        → l ≡ map_level size
        → l ≤ 3
        → Supplies cpu spare m.frames
        → Result l spare m
    last_Maps l spare m e le s = (
      enter size page low cpu physical_address flags l word m,
      map_page-last size page low cpu physical_address flags word sets l m e le,
      entered physical_address flags word here l spare m e le s,
    )

    -- From a level down, with a free frame for each table that may be missing.
    pub map_page-Maps :
        (l spare : ℕ) (m : Machine)
        → map_level size ≤ l
        → l ≤ 3
        → Supplies cpu (l - map_level size + spare) m.frames
        → Result l spare m
    map_page-Maps zero spare m h le s =
        last_Maps zero spare m (omega arith) le
          (subst (λ n. Supplies cpu n m.frames) (omega arith) s)
    map_page-Maps (suc l) spare m h le s = elim (ℕ_discrete (suc l) (map_level size)) [
      | yes e ↦
          last_Maps (suc l) spare m e le (subst (λ n. Supplies cpu n m.frames) (omega arith) s)
      | no ne ↦
          let count : suc l - map_level size + spare ≡ suc (l - map_level size + spare) =
            omega arith in
          let (m', ensures, t, s') =
            ensure_table-Ensured cpu size l page low (omega arith) (l - map_level size + spare) m
              (omega arith) (subst (λ n. Supplies cpu n m.frames) count s) in
          let (r, e, d) = map_page-Maps l spare m' (omega arith) (omega arith) s' in
          (
            r,
            map_page-step size page low cpu physical_address flags l m m' (omega arith)
                  (omega arith) ensures
                ∙ e,
            stepped physical_address flags word here l spare m m' r (omega arith) (omega arith) t d,
          )
    ]
