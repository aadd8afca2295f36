-- ===== src/Mm/HoleList/Free.antt =====
-- `deallocate`: a block comes back to the list and is joined with the holes that it touches.
use libhermit_mpk.Prelude.{
  ℕ, ◌+◌, ◌≤◌, ◌<◌, ◌≡◌, refl, subst, ◌⊎◌, inl, inr, Bool-cases, true, ◌&&◌, ◌||◌, List, [], ◌∷◌,
  Option, none, some, leb, ◌==◌, arith, u64_mod, add64,
}
use libhermit_mpk.Mm.HoleList.{HoleInfo, hole, min_size, hole_addr, put_back, deallocate}
use libhermit_mpk.Mm.HoleList.Holes.{within, covers, IsApart, Avoids, IsApart-le}

-- `h` is the dummy head, or a hole of the least size or more.
abbrev pub IsHead : HoleInfo → Type 0
IsHead h = ((h.addr ≡ 0) × (h.size ≡ 0)) ⊎ (min_size ≤ h.size)

-- The list that starts with `h` becomes one that starts with a hole at the same address, with the
-- block put in.
pub record Gives (hi : ℕ) (h : HoleInfo) (hs : List HoleInfo) (addr size : ℕ) (h' : HoleInfo)
    (hs' : List HoleInfo) : Type 0 where
  pub same : h'.addr ≡ h.addr
  pub head : IsHead h'
  pub grown : h.size ≤ h'.size
  pub kept : h.size ≡ 0 → h'.size ≡ 0
  pub apart : IsApart (h'.addr + h'.size) hi hs'
  pub now_free : (x : ℕ) → covers (h' ∷ hs') x ≡ (covers (h ∷ hs) x || within addr size x)

abbrev pub Returns : ℕ → HoleInfo → List HoleInfo → ℕ → ℕ → Option (List HoleInfo) → Type 0
Returns hi h hs addr size none = ⊥
Returns hi h hs addr size (some []) = ⊥
Returns hi h hs addr size (some (h' ∷ hs')) = Gives hi h hs addr size h' hs'

-- Nothing from above the block meets it.
Avoids-above :
    (lo hi addr size : ℕ) (hs : List HoleInfo)
    → addr + size ≤ lo
    → IsApart lo hi hs
    → Avoids hs addr size
Avoids-above lo hi addr size [] le sep = tt
Avoids-above lo hi addr size (x ∷ hs) le sep =
    (inl (omega arith), Avoids-above (x.addr + x.size) hi addr size hs (omega arith) sep.2)

pub IsApart-from :
    (lo lo' hi : ℕ) (hs : List HoleInfo) → lo' ≤ lo → IsApart lo hi hs → IsApart lo' hi hs
IsApart-from lo lo' hi [] le sep = omega arith
IsApart-from lo lo' hi (x ∷ hs) le sep = (omega arith, sep.1, sep.2)

-- The block was first joined with the next hole.
Returns-merged :
    (hi addr size : ℕ) (h next : HoleInfo) (rest : List HoleInfo) (r : Option (List HoleInfo))
    → addr + size ≡ next.addr
    → Returns hi h rest addr (size + next.size) r
    → Returns hi h (next ∷ rest) addr size r
Returns-merged hi addr size h next rest none meets g = g
Returns-merged hi addr size h next rest (some []) meets g = g
Returns-merged hi addr size h next rest (some (h' ∷ hs')) meets g = record {
  same = g.same;
  head = g.head;
  grown = g.grown;
  kept = g.kept;
  apart = g.apart;
  now_free = λ x. ground (arith, g.now_free x);
}

-- The block went to the holes behind.
Returns-delegated :
    (hi addr size : ℕ) (h next : HoleInfo) (rest : List HoleInfo) (r : Option (List HoleInfo))
    → IsHead h
    → h.addr + h.size < next.addr
    → min_size ≤ next.size
    → Returns hi next rest addr size r
    → Returns hi h (next ∷ rest) addr size (put_back h r)
Returns-delegated hi addr size h next rest none hd lt big g = g
Returns-delegated hi addr size h next rest (some []) hd lt big g = absurd g
Returns-delegated hi addr size h next rest (some (n ∷ ns)) hd lt big g = record {
  same = refl;
  head = hd;
  grown = omega arith;
  kept = λ e. e;
  apart = (omega (arith, g.same), omega (arith, g.grown), g.apart);
  now_free = λ x. ground (arith, g.now_free x);
}

module _ (hi addr size : ℕ) (h : HoleInfo) (small : hi < u64_mod) (pos : 0 < addr)
    (big : min_size ≤ size) (fits : addr + size ≤ hi) (hd : IsHead h)
    (le : h.addr + h.size ≤ addr) where
  end_lem : add64 (hole_addr h) h.size ≡ h.addr + h.size
  end_lem = ground arith

  passes : (leb min_size size && leb (add64 (hole_addr h) h.size) addr) ≡ true
  passes = rw end_lem (ground arith)

  sum_lem : add64 addr size ≡ addr + size
  sum_lem = omega arith

  -- The hole grows over the block.
  Gives-grow :
      (hs hs' : List HoleInfo) (extra : ℕ)
      → h.addr + h.size ≡ addr
      → size ≤ extra
      → IsApart (addr + extra) hi hs'
      → ((x : ℕ) → (within addr extra x || covers hs' x) ≡ (covers hs x || within addr size x))
      → Gives hi h hs addr size (record h { size = add64 h.size extra }) hs'
  Gives-grow hs hs' extra joins more sep same = rw grows (record {
    same = refl;
    head = inr (omega arith);
    grown = omega arith;
    kept = λ e. absurd (ground arith);
    apart = subst (λ lo. IsApart lo hi hs') (omega arith) sep;
    now_free = λ x. ground (arith, same x);
  })
    where
      grows : add64 h.size extra ≡ h.size + extra
      grows = omega (arith, IsApart-le (addr + extra) hi hs' sep)

  -- The block becomes a hole of its own.
  Gives-insert :
      (hs : List HoleInfo)
      → h.addr + h.size < addr
      → IsApart (addr + size) hi hs
      → Gives hi h hs addr size h (hole addr size ∷ hs)
  Gives-insert hs lt sep = record {
    same = refl;
    head = hd;
    grown = omega arith;
    kept = λ e. e;
    apart = (lt, big, sep);
    now_free = λ x. ground arith;
  }

pub deallocate-Returns :
    (hi addr size : ℕ) (h : HoleInfo) (hs : List HoleInfo)
    → hi < u64_mod
    → 0 < addr
    → min_size ≤ size
    → addr + size ≤ hi
    → IsHead h
    → h.addr + h.size ≤ addr
    → IsApart (h.addr + h.size) hi hs
    → Avoids hs addr size
    → Returns hi h hs addr size (deallocate h hs addr size)
unfolding deallocate
deallocate-Returns hi addr size h [] small pos big fits hd le sep av =
    rw (passes hi addr size h small pos big fits hd le)
      (elim (Bool-cases (add64 (hole_addr h) h.size == addr)) [
        | inl joins ↦ rw joins (
            Gives-grow hi addr size h small pos big fits hd le [] [] size (ground (arith, e))
              (omega arith) fits (λ x. ground arith))
        | inr parts ↦
            rw parts
              (Gives-insert hi addr size h small pos big fits hd le [] (ground (arith, e)) fits)
      ])
  where
    e : add64 (hole_addr h) h.size ≡ h.addr + h.size
    e = end_lem hi addr size h small pos big fits hd le
deallocate-Returns hi addr size h (next ∷ rest) small pos big fits hd le sep av =
    rw (passes hi addr size h small pos big fits hd le)
      (elim (Bool-cases (add64 (hole_addr h) h.size == addr)) [
        | inl joins ↦ elim (Bool-cases (add64 addr size == next.addr)) [
          | inl meets ↦
              rw (joins, meets, size_lem)
                (Gives-grow hi addr size h small pos big fits hd le (next ∷ rest) rest
                  (size + next.size) (ground (arith, e)) (omega arith)
                  (subst (λ lo. IsApart lo hi rest) (ground (arith, s)) sep.2)
                  (λ x. ground (arith, s)))
          | inr apart ↦
              rw (joins, apart)
                (Gives-grow hi addr size h small pos big fits hd le (next ∷ rest) (next ∷ rest) size
                  (ground (arith, e)) (omega arith) (ground (arith, e, s)) (λ x. ground arith))
        ]
        | inr parts ↦ elim (Bool-cases (add64 addr size == next.addr)) [
          | inl meets ↦
              rw (parts, meets, size_lem)
                (Returns-merged hi addr size h next rest _ (ground (arith, s)) (
                  deallocate-Returns hi addr (size + next.size) h rest small pos (omega arith)
                    (ground (arith, s, top)) hd le
                    (IsApart-from (next.addr + next.size) _ hi rest (omega arith) sep.2)
                    (Avoids-above (next.addr + next.size) hi addr _ rest (ground (arith, s))
                      sep.2)))
          | inr apart ↦ elim (Bool-cases (leb next.addr addr)) [
            | inl behind ↦
                rw (parts, apart, behind)
                  (Returns-delegated hi addr size h next rest _ hd sep.0 sep.1 (
                    deallocate-Returns hi addr size next rest small pos big fits (inr sep.1)
                      (ground arith) sep.2 av.1))
            | inr before ↦
                rw (parts, apart, before)
                  (Gives-insert hi addr size h small pos big fits hd le (next ∷ rest)
                    (ground (arith, e)) (ground (arith, s)))
          ]
        ]
      ])
  where
    e : add64 (hole_addr h) h.size ≡ h.addr + h.size
    e = end_lem hi addr size h small pos big fits hd le

    s : add64 addr size ≡ addr + size
    s = sum_lem hi addr size h small pos big fits hd le

    top : next.addr + next.size ≤ hi
    top = IsApart-le (next.addr + next.size) hi rest sep.2

    size_lem : add64 size next.size ≡ size + next.size
    size_lem = omega (arith, top)
