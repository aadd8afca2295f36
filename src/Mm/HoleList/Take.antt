-- ===== src/Mm/HoleList/Take.antt =====
-- `allocate_first_fit`: the first hole that can be split leaves the list, its paddings come back.
use libhermit_mpk.Prelude.{
  ℕ, ◌+◌, ◌%◌, ◌^◌, ◌==◌, ◌≤◌, ◌<◌, ◌≡◌, refl, ap, ◌∙◌, Bool, true, false, not, ◌&&◌, ◌||◌, Option,
  none, some, List, [], ◌∷◌, leb, arith, u64_mod, Option-cases, inl, inr,
}
use libhermit_mpk.Mm.HoleList.{
  HoleInfo, dummy, Layout, Allocation, min_size, split_hole, use_hole, first_fit, give_back,
  give_padding, give_second, give_paddings, finish, Outcome, panic, alloc_err, allocated,
  allocate_first_fit,
}
use libhermit_mpk.Mm.HoleList.Holes.{
  within, covers, IsApart, IsApart-le, covers-below, Avoids-of_covers,
}
use libhermit_mpk.Mm.HoleList.Split.{Front, Back, Splits, split_hole-Splits}
use libhermit_mpk.Mm.HoleList.Free.{Returns, IsApart-from, deallocate-Returns}

-- The holes after the block `b` was given back.
abbrev pub GivesBack : ℕ → List HoleInfo → HoleInfo → Option (List HoleInfo) → Type 0
GivesBack hi holes b none = ⊥
GivesBack hi holes b (some holes') =
    IsApart 0 hi holes' × ((x : ℕ) → covers holes' x ≡ (covers holes x || within b.addr b.size x))

abbrev behind_dummy : Option (List HoleInfo) → Option (List HoleInfo)
behind_dummy none = none
behind_dummy (some []) = none
behind_dummy (some (first ∷ rest)) = some rest

behind_dummy-GivesBack :
    (hi : ℕ) (holes : List HoleInfo) (b : HoleInfo) (r : Option (List HoleInfo))
    → Returns hi dummy holes b.addr b.size r
    → GivesBack hi holes b (behind_dummy r)
behind_dummy-GivesBack hi holes b none g = g
behind_dummy-GivesBack hi holes b (some []) g = g
behind_dummy-GivesBack hi holes b (some (h ∷ hs)) g = (
  IsApart-from (h.addr + h.size) 0 hi hs (omega arith) g.apart,
  λ x. ground (arith, g.now_free x, g.same, g.kept),
)

-- `HoleList::deallocate` does not fail for a block that is in use, is not at address 0, has at least the
-- least size of a hole and ends within the memory, and makes exactly it free.
pub give_back-GivesBack :
    (hi : ℕ) (holes : List HoleInfo) (b : HoleInfo)
    → hi < u64_mod
    → IsApart 0 hi holes
    → 0 < b.addr
    → min_size ≤ b.size
    → b.addr + b.size ≤ hi
    → ((x : ℕ) → within b.addr b.size x ≡ true → covers holes x ≡ false)
    → GivesBack hi holes b (give_back holes b)
unfolding give_back
give_back-GivesBack hi holes b small sep pos big fits unused = behind_dummy-GivesBack hi holes b _ (
    deallocate-Returns hi b.addr b.size dummy holes small pos big fits (inl (refl, refl))
      (omega arith) sep (Avoids-of_covers 0 hi b.addr b.size holes (omega arith) sep unused))

-- The addresses of a padding.
abbrev pad : Option HoleInfo → ℕ → Bool
pad none x = false
pad (some p) x = within p.addr p.size x

abbrev CanGive : ℕ → List HoleInfo → Option HoleInfo → Type 0
CanGive hi holes none = Unit {0}
CanGive hi holes (some p) =
    (0 < p.addr)
    × (min_size ≤ p.size)
    × (p.addr + p.size ≤ hi)
    × ((x : ℕ) → within p.addr p.size x ≡ true → covers holes x ≡ false)

-- The holes after an optional padding was given back.
abbrev GivesPadding : ℕ → List HoleInfo → Option HoleInfo → Option (List HoleInfo) → Type 0
GivesPadding hi holes p none = ⊥
GivesPadding hi holes p (some holes') =
    IsApart 0 hi holes' × ((x : ℕ) → covers holes' x ≡ (covers holes x || pad p x))

GivesPadding-of_GivesBack :
    (hi : ℕ) (holes : List HoleInfo) (p : HoleInfo) (r : Option (List HoleInfo))
    → GivesBack hi holes p r
    → GivesPadding hi holes (some p) r
GivesPadding-of_GivesBack hi holes p none g = g
GivesPadding-of_GivesBack hi holes p (some holes') g = g

give_padding-GivesPadding :
    (hi : ℕ) (holes : List HoleInfo) (p : Option HoleInfo)
    → hi < u64_mod
    → IsApart 0 hi holes
    → CanGive hi holes p
    → GivesPadding hi holes p (give_padding p holes)
give_padding-GivesPadding hi holes none small sep c = (sep, λ x. ground arith)
give_padding-GivesPadding hi holes (some p) small sep c =
    GivesPadding-of_GivesBack hi holes p _
      (give_back-GivesBack hi holes p small sep c.0 c.1 c.2 c.3)

-- What the search finds: a hole `h` that is split, and the list without it.
record Picked (lo hi : ℕ) (holes : List HoleInfo) (layout : Layout) (a : Allocation)
    (rest : List HoleInfo) : Type 0 where
  h : HoleInfo
  splits : Splits h layout a
  above : lo < h.addr
  top : h.addr + h.size ≤ hi
  apart : IsApart lo hi rest
  was_free : (x : ℕ) → covers holes x ≡ (covers rest x || within h.addr h.size x)
  gone : (x : ℕ) → within h.addr h.size x ≡ true → covers rest x ≡ false

abbrev Picks : ℕ → ℕ → List HoleInfo → Layout → Option (Allocation × List HoleInfo) → Type 0
Picks lo hi holes layout none = Unit {0}
Picks lo hi holes layout (some (a, rest)) = Picked lo hi holes layout a rest

Picks-cons :
    (lo hi : ℕ) (h : HoleInfo) (hs : List HoleInfo) (layout : Layout)
    (r : Option (Allocation × List HoleInfo))
    → IsApart lo hi (h ∷ hs)
    → Picks (h.addr + h.size) hi hs layout r
    → Picks lo hi (h ∷ hs) layout (use_hole h hs none r)
Picks-cons lo hi h hs layout none sep p = tt
Picks-cons lo hi h hs layout (some (a, rest)) sep p = record {
  h = p.h;
  splits = p.splits;
  above = omega (arith, p.above);
  top = p.top;
  apart = (sep.0, sep.1, p.apart);
  was_free = λ x. ground (arith, p.was_free x);
  gone = λ x w. ground (arith, p.gone x w, p.above);
}

module _ (hi k size : ℕ) (hk : k < 64) (small : hi + min_size + 2 ^ k + size < u64_mod) where
  abbrev lay : Layout
  lay = record { size = size; align = 2 ^ k }

  first_fit-Picks :
      (lo : ℕ) (hs : List HoleInfo) → IsApart lo hi hs → Picks lo hi hs lay (first_fit hs lay)
  unfolding first_fit
  first_fit-Picks lo [] sep = tt
  first_fit-Picks lo (h ∷ hs) sep = elim (Option-cases (split_hole h lay)) [
    | inl no_fit ↦
        rw no_fit (Picks-cons lo hi h hs lay _ sep (first_fit-Picks (h.addr + h.size) hs sep.2))
    | inr (a, fit) ↦ rw fit (record {
      h = h;
      splits = split_hole-Splits h k size hk (omega (arith, top)) sep.1 a fit;
      above = sep.0;
      top = top;
      apart = IsApart-from (h.addr + h.size) lo hi hs (omega arith) sep.2;
      was_free = λ x. ground arith;
      gone = λ x w. ground (arith, covers-below (h.addr + h.size) hi x hs sep.2);
    })
  ]
    where
      top : h.addr + h.size ≤ hi
      top = IsApart-le (h.addr + h.size) hi hs sep.2

-- What an allocation returns and leaves.
abbrev pub Allocates : ℕ → List HoleInfo → Layout → Outcome → Type 0
Allocates hi holes layout panic = ⊥
Allocates hi holes layout (alloc_err holes') = holes' ≡ holes
Allocates hi holes layout (allocated a holes') =
    (a % layout.align ≡ 0)
    × IsApart 0 hi holes'
    × ((x : ℕ) → within a layout.size x ≡ true → covers holes x ≡ true)
    × ((x : ℕ) → covers holes' x ≡ (covers holes x && not (within a layout.size x)))

module _ (hi : ℕ) (holes : List HoleInfo) (layout : Layout) (a : Allocation) (rest : List HoleInfo)
    (small : hi < u64_mod) (pos : 0 < layout.size) (p : Picked 0 hi holes layout a rest) where
  open p use {h, splits}

  -- The allocation lies in the hole.
  starts_in : (q : Option HoleInfo) → Front h a.info.addr q → h.addr ≤ a.info.addr
  starts_in none f = omega arith
  starts_in (some q) f = omega arith

  ends_in :
      (q : Option HoleInfo)
      → Back h (a.info.addr + layout.size) q
      → a.info.addr + layout.size ≤ h.addr + h.size
  ends_in none b = omega arith
  ends_in (some q) b = omega arith

  CanGive-Front : (q : Option HoleInfo) → Front h a.info.addr q → CanGive hi rest q
  CanGive-Front none f = tt
  CanGive-Front (some q) f = (
    omega (arith, p.above),
    f.2,
    omega (arith, p.top, ends_in a.back_padding splits.back),
    λ x w. p.gone x (ground (arith, ends_in a.back_padding splits.back)),
  )

  CanGive-Back :
      (holes1 : List HoleInfo) (f q : Option HoleInfo)
      → Front h a.info.addr f
      → Back h (a.info.addr + layout.size) q
      → ((x : ℕ) → covers holes1 x ≡ (covers rest x || pad f x))
      → CanGive hi holes1 q
  CanGive-Back holes1 f none fr b c = tt
  CanGive-Back holes1 none (some q) fr b c =
      (omega (arith, p.above), b.2, omega (arith, p.top), λ x w. ground (arith, c x, p.gone x))
  CanGive-Back holes1 (some f) (some q) fr b c =
      (omega (arith, p.above), b.2, omega (arith, p.top), λ x w. ground (arith, c x, p.gone x))

  -- The hole without both paddings is the allocation.
  left_over :
      (f q : Option HoleInfo) (x : ℕ)
      → Front h a.info.addr f
      → Back h (a.info.addr + layout.size) q
      → ((covers rest x || pad f x) || pad q x)
        ≡ (covers holes x && not (within a.info.addr layout.size x))
  left_over none none x fr b = ground (arith, p.was_free x, p.gone x)
  left_over none (some q) x fr b = ground (arith, p.was_free x, p.gone x)
  left_over (some f) none x fr b = ground (arith, p.was_free x, p.gone x)
  left_over (some f) (some q) x fr b = ground (arith, p.was_free x, p.gone x)

  not_null : (a.info.addr == 0) ≡ false
  not_null = ground (arith, p.above, starts_in a.front_padding splits.front)

  after_back :
      (holes1 : List HoleInfo) (r : Option (List HoleInfo))
      → ((x : ℕ) → covers holes1 x ≡ (covers rest x || pad a.front_padding x))
      → GivesPadding hi holes1 a.back_padding r
      → Allocates hi holes layout (finish a.info.addr r)
  after_back holes1 none c g = g
  after_back holes1 (some holes2) c g = rw not_null (
    splits.aligned,
    g.0,
    λ x w. ground (
      arith,
      p.was_free x,
      starts_in a.front_padding splits.front,
      ends_in a.back_padding splits.back,
    ),
    λ x.
        g.1 x
        ∙ ap (λ b. b || pad a.back_padding x) (c x)
        ∙ left_over _ _ x splits.front splits.back,
  )

  after_front :
      (r : Option (List HoleInfo))
      → GivesPadding hi rest a.front_padding r
      → Allocates hi holes layout (finish a.info.addr (give_second a.back_padding r))
  after_front none g = g
  after_front (some holes1) g = after_back holes1 _ g.1 (
      give_padding-GivesPadding hi holes1 a.back_padding small g.0
        (CanGive-Back holes1 a.front_padding a.back_padding splits.front splits.back g.1))

  Picked-Allocates :
      Allocates hi holes layout
        (finish a.info.addr (give_second a.back_padding (give_padding a.front_padding rest)))
  Picked-Allocates = after_front _ (
      give_padding-GivesPadding hi rest a.front_padding small p.apart
        (CanGive-Front a.front_padding splits.front))

Picks-Allocates :
    (hi : ℕ) (holes : List HoleInfo) (layout : Layout) (r : Option (Allocation × List HoleInfo))
    → hi < u64_mod
    → 0 < layout.size
    → Picks 0 hi holes layout r
    → Allocates hi holes layout (give_paddings holes r)
Picks-Allocates hi holes layout none small pos p = refl
Picks-Allocates hi holes layout (some (a, rest)) small pos p =
    Picked-Allocates hi holes layout a rest small pos p

-- For a size of at least the least size of a hole, and an alignment that is a power of two, such that
-- the end of the memory, the alignment, the size and the least size together stay below 2 ^ 64,
-- `HoleList::allocate_first_fit` fails no assertion. It returns a free block of the size at a
-- multiple of the alignment and takes exactly that block out of the list, whose holes stay sorted,
-- apart and of the least size; or it reports an error and leaves the list.
pub allocate_first_fit-Allocates :
    (hi k size : ℕ) (holes : List HoleInfo)
    → k < 64
    → hi + min_size + 2 ^ k + size < u64_mod
    → min_size ≤ size
    → IsApart 0 hi holes
    → Allocates hi holes
        (record { size = size; align = 2 ^ k })
        (allocate_first_fit holes (record { size = size; align = 2 ^ k }))
unfolding allocate_first_fit
allocate_first_fit-Allocates hi k size holes hk small big sep =
    let passes : leb min_size size ≡ true = ground arith in
    rw passes (
      Picks-Allocates hi holes (record { size = size; align = 2 ^ k }) _ (omega arith) (omega arith)
        (first_fit-Picks hi k size hk small 0 holes sep))
