-- ===== src/Scheduler/Lifecycle/Ids.antt =====
-- New identifiers are unused, and clones go around the cores.
use libhermit_mpk.Prelude.{
  sym, ℕ, zero, suc, ◌+◌, ◌≤◌, ◌<◌, ◌%◌, ◌≡◌, refl, ◌∙◌, ap, false, Option, none, some, is_some,
  arith, u32_mod, Bool-cases, inl, inr,
}
use libhermit_mpk.Scheduler.Lifecycle.{get_tid, next_core}

-- An identifier that no task has.
abbrev pub Fresh : (ℕ → Option ℕ) → Option (ℕ × ℕ) → Type 0
Fresh table none = ⊥
Fresh table (some (id, counter)) = (table id ≡ none) × (id < u32_mod) × (counter < u32_mod)

none_of : (o : Option ℕ) → is_some o ≡ false → o ≡ none
none_of none e = refl
none_of (some x) e = absurd (ground arith)

-- If one of the next `d` identifiers after the counter is unused, `d + 1` rounds find one that no
-- task has.
pub get_tid-Fresh :
    (d : ℕ) (table : ℕ → Option ℕ) (counter : ℕ)
    → counter < u32_mod
    → table ((counter + d) % u32_mod) ≡ none
    → Fresh table (get_tid (suc d) table counter)
unfolding get_tid
get_tid-Fresh zero table counter lt e =
    let at : (counter + 0) % u32_mod ≡ counter = omega arith in
    let free : table counter ≡ none = sym (ap table at) ∙ e in rw free (free, lt, omega arith)
get_tid-Fresh (suc d) table counter lt e = elim (Bool-cases (is_some (table counter))) [
  | inr free ↦ rw free (none_of (table counter) free, lt, omega arith)
  | inl used ↦
      let at : (counter + suc d) % u32_mod ≡ ((counter + 1) % u32_mod + d) % u32_mod =
        omega arith in
      rw used
        (get_tid-Fresh d table ((counter + 1) % u32_mod) (omega arith) (sym (ap table at) ∙ e))
]

-- `clone` goes around the cores.
pub next_core-bounds :
    (processor_count id : ℕ)
    → 0 < processor_count
    → id ≤ processor_count
    → ((next_core processor_count id).0 < processor_count)
      × ((next_core processor_count id).1 ≤ processor_count)
next_core-bounds processor_count id pos le = ground arith
