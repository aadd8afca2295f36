-- ===== src/Arch/Paging/Loop.antt =====
-- The loop of `map_pages`: the root table as a map from page numbers to entries.
use libhermit_mpk.Prelude.{
  ℕ, zero, suc, ◌+◌, ◌-◌, ◌*◌, ◌%◌, ◌^◌, ◌<◌, ◌≤◌, ◌≡◌, refl, ap, sym, ◌∙◌, Bool, true, false, ◌||◌,
  Option, none, some, arith, leb, ltb, ◌==◌, if◌then◌else◌, add64, Bool-cases, inl, inr, subst,
  Option,
}
use native.Mathlib.Nat.{suc-mul, add_comm}
use native.Mathlib.Decide.{ℕ_discrete, dec_lt}
use mathlib.Core.Bool.{or_assoc, or-false}
use libhermit_mpk.Prelude.Bits.{pow_mono}
use libhermit_mpk.Arch.Paging.Page.{PageSize, size_of, next}
use libhermit_mpk.Arch.Paging.{Cpu, Memory, Machine}
use libhermit_mpk.Arch.Paging.Calls.{map_loop}
use libhermit_mpk.Arch.Paging.Slots.{IsLow}
use libhermit_mpk.Arch.Paging.Tables.{Supplies}
use libhermit_mpk.Arch.Paging.Maps.{is_mapped}
use libhermit_mpk.Arch.Paging.Ranges.{
  entry_of, updated_entry, any_mapped, entry_word, IsPlain, tables_of, Enters, enter_page,
}

pub low_page :
    (size : PageSize) (q k : ℕ) → q < k → k * size_of size ≤ 2 ^ 47 → IsLow (q * size_of size)
low_page PageSize.base_page q k lt le = omega arith
low_page PageSize.large_page q k lt le = omega arith
low_page PageSize.gib_page q k lt le = omega arith

-- The arithmetic of one step, at each page size.
record Steps (size : PageSize) (q n physical_address last width : ℕ) : Type 0 where
  current : q * size_of size ≤ last
  moved : add64 (q * size_of size) (size_of size) ≡ suc q * size_of size
  frame : add64 physical_address (size_of size) ≡ physical_address + size_of size
  whole : (physical_address + size_of size) % size_of size ≡ 0
  fits : physical_address + size_of size + n * size_of size ≤ 2 ^ width
  first_fits : physical_address < 2 ^ width

steps :
    (size : PageSize) (q n physical_address last width : ℕ)
    → width ≤ 63
    → (q + suc n) * size_of size ≤ 2 ^ 47
    → last + size_of size ≡ (q + suc n) * size_of size
    → physical_address % size_of size ≡ 0
    → physical_address + suc n * size_of size ≤ 2 ^ width
    → Steps size q n physical_address last width
steps PageSize.base_page q n pa last width narrow low end whole fits =
    let top : 2 ^ width ≤ 2 ^ 63 = pow_mono width 63 narrow in
    record {
      current = omega arith;
      moved = omega arith;
      frame = omega arith;
      whole = omega arith;
      fits = omega arith;
      first_fits = omega arith;
    }
steps PageSize.large_page q n pa last width narrow low end whole fits =
    let top : 2 ^ width ≤ 2 ^ 63 = pow_mono width 63 narrow in
    record {
      current = omega arith;
      moved = omega arith;
      frame = omega arith;
      whole = omega arith;
      fits = omega arith;
      first_fits = omega arith;
    }
steps PageSize.gib_page q n pa last width narrow low end whole fits =
    let top : 2 ^ width ≤ 2 ^ 63 = pow_mono width 63 narrow in
    record {
      current = omega arith;
      moved = omega arith;
      frame = omega arith;
      whole = omega arith;
      fits = omega arith;
      first_fits = omega arith;
    }

ended :
    (size : PageSize) (q last : ℕ)
    → last + size_of size ≡ (q + 0) * size_of size
    → leb (q * size_of size) last ≡ false
ended PageSize.base_page q last end = ground arith
ended PageSize.large_page q last end = ground arith
ended PageSize.gib_page q last end = ground arith

next-none :
    (size : PageSize) (q last : ℕ)
    → leb (q * size_of size) last ≡ false
    → next size (q * size_of size) last ≡ none
unfolding next
next-none size q last e = rw e refl

next-some :
    (size : PageSize) (q last : ℕ)
    → leb (q * size_of size) last ≡ true
    → next size (q * size_of size) last
      ≡ some (q * size_of size, add64 (q * size_of size) (size_of size))
unfolding next
next-some size q last e = rw e refl

-- The frame of a later page, counted from the first or from the second.
later_frame :
    (size : PageSize) (pa q q' : ℕ)
    → q < q'
    → pa + size_of size + (q' - suc q) * size_of size ≡ pa + (q' - q) * size_of size
later_frame PageSize.base_page pa q q' lt = omega arith
later_frame PageSize.large_page pa q q' lt = omega arith
later_frame PageSize.gib_page pa q q' lt = omega arith

first_frame : (size : PageSize) (pa q q' : ℕ) → q ≡ q' → pa + (q' - q) * size_of size ≡ pa
first_frame PageSize.base_page pa q q' e = omega arith
first_frame PageSize.large_page pa q q' e = omega arith
first_frame PageSize.gib_page pa q q' e = omega arith

updated_none :
    (size : PageSize) (q pa flags q' : ℕ) (old : Option (Option ℕ))
    → old ≡ updated_entry size q 0 pa flags q' old
updated_none size q pa flags q' old = elim (Bool-cases (leb q q')) [
  | inl above ↦ let out : ltb q' (q + 0) ≡ false = ground arith in rw (above, out) refl
  | inr below ↦ rw below refl
]

updated_step :
    (size : PageSize) (q n physical_address flags q' : ℕ) (old : Option (Option ℕ))
    → updated_entry size
        (suc q)
        n
        (physical_address + size_of size)
        flags
        q'
        (if q == q' then some (some (entry_word size physical_address flags)) else old)
      ≡ updated_entry size q (suc n) physical_address flags q' old
updated_step size q n pa flags q' old = elim (dec_lt q q') [
  | yes lt ↦
      let e = later_frame size pa q q' lt in
      let first : (q == q') ≡ false = ground arith in
      let here : leb q q' ≡ true = ground arith in
      let next_here : leb (suc q) q' ≡ true = ground arith in
      let shift : suc q + n ≡ q + suc n = omega arith in rw (first, here, next_here, shift, e) refl
  | no not_lt ↦
      let next_out : leb (suc q) q' ≡ false = ground arith in
      elim (ℕ_discrete q q') [
        | yes e ↦
            let first : (q == q') ≡ true = ground arith in
            let here : leb q q' ≡ true = ground arith in
            let inside : ltb q' (q + suc n) ≡ true = ground arith in
            rw (next_out, first, here, inside, first_frame size pa q q' e) refl
        | no ne ↦
            let first : (q == q') ≡ false = ground arith in
            let here : leb q q' ≡ false = ground arith in rw (next_out, first, here) refl
      ]
]

any-same :
    (size : PageSize) (memory memory' : Memory) (q n : ℕ)
    → ((i : ℕ) → q ≤ i → i < q + n → entry_of size memory' i ≡ entry_of size memory i)
    → any_mapped size memory' q n ≡ any_mapped size memory q n
any-same size memory memory' q zero same = refl
any-same size memory memory' q (suc n) same =
    rw
      (
        same q (omega arith) (omega arith),
        any-same size memory memory' (suc q) n (λ i le lt. same i (omega arith) (omega arith)),
      )
      refl

later_same :
    (cpu : Cpu) (size : PageSize) (q n word spare : ℕ) (m : Machine) (r : Bool × Machine)
    → (suc q + n) * size_of size ≤ 2 ^ 47
    → Enters cpu size q word spare m r
    → (i : ℕ) → suc q ≤ i
    → i < suc q + n
    → entry_of size r.1.memory i ≡ entry_of size m.memory i
later_same cpu size q n word spare m r low d i le lt =
    let differ : (q == i) ≡ false = ground arith in
    d.entries i (low_page size i (suc q + n) lt low)
    ∙ ap (λ b. if b then some (some word) else entry_of size m.memory i) differ

module _ (cpu : Cpu) (size : PageSize) (flags : ℕ) (plain : IsPlain size flags)
    (narrow : cpu.width ≤ 63) where
  -- What the root table says after `n` pages, and whether the other cores have to know.
  abbrev pub Updates : ℕ → ℕ → ℕ → Bool → Machine → Bool × Machine → Type 0
  Updates q n physical_address send_ipi m r =
      ((q' : ℕ)
        → IsLow (q' * size_of size)
        → entry_of size r.1.memory q'
          ≡ updated_entry size q n physical_address flags q' (entry_of size m.memory q'))
      × (r.0 ≡ (send_ipi || any_mapped size m.memory q n))
      × (r.1.ipis ≡ m.ipis)

  pub loop_Updates :
      (n q physical_address last fuel : ℕ) (send_ipi : Bool) (m : Machine)
      → n < fuel
      → (q + n) * size_of size ≤ 2 ^ 47
      → last + size_of size ≡ (q + n) * size_of size
      → physical_address % size_of size ≡ 0
      → physical_address + n * size_of size ≤ 2 ^ cpu.width
      → Supplies cpu (n * tables_of size) m.frames
      → (r : Bool × Machine) × (map_loop fuel cpu size
            (q * size_of size)
            last
            physical_address
            flags
            send_ipi
            m
          ≡ some r)
        × Updates q n physical_address send_ipi m r
  unfolding map_loop
  loop_Updates n q pa last zero send_ipi m fuel low end whole fits s = absurd (omega arith)
  loop_Updates zero q pa last (suc fuel) send_ipi m lt low end whole fits s = (
    (send_ipi, m),
    rw (next-none size q last (ended size q last end), map_loop) refl,
    (
      λ q' _. updated_none size q pa flags q' (entry_of size m.memory q'),
      sym (or-false send_ipi),
      refl,
    ),
  )
  loop_Updates (suc n) q pa last (suc fuel) send_ipi m lt low end whole fits s =
      let a = steps size q n pa last cpu.width narrow low end whole fits in
      let low_q : IsLow (q * size_of size) = low_page size q (q + suc n) (omega arith) low in
      let supply : Supplies cpu (tables_of size + n * tables_of size) m.frames =
        subst (λ k. Supplies cpu k m.frames) (suc-mul n (tables_of size) ∙ add_comm _ _) s in
      let (r, e, d) =
        enter_page cpu size flags plain narrow q pa (n * tables_of size) m low_q whole a.first_fits
          supply in
      let here : leb (q * size_of size) last ≡ true = ground (arith, a.current) in
      let shift : q + suc n ≡ suc q + n = omega arith in
      let low' = subst (λ k. k * size_of size ≤ 2 ^ 47) shift low in
      let (r', e', updates) =
        loop_Updates n (suc q) (pa + size_of size) last fuel (send_ipi || r.0) r.1 (omega arith)
          low' (subst (λ k. last + size_of size ≡ k * size_of size) shift end) a.whole a.fits
          d.supplied in
      (
        r',
        rw (next-some size q last here, map_loop, e, a.moved, a.frame) e',
        (
          λ q' low_q'.
              updates.0 q' low_q'
              ∙ ap (updated_entry size (suc q) n (pa + size_of size) flags q') (d.entries q' low_q')
              ∙ updated_step size q n pa flags q' (entry_of size m.memory q'),
          updates.1
              ∙ rw (d.updated, or_assoc send_ipi)
                  (ap (λ b. send_ipi || (is_mapped (entry_of size m.memory q) || b))
                    (any-same size m.memory r.1.memory (suc q) n (
                      later_same cpu size q n (entry_word size pa flags) (n * tables_of size) m r
                        low' d))),
          updates.2 ∙ d.ipis,
        ),
      )
