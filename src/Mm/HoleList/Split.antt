-- ===== src/Mm/HoleList/Split.antt =====
-- `split_hole`: an allocation and its paddings tile the hole.
use libhermit_mpk.Prelude.{
  ℕ, ◌+◌, ◌%◌, ◌^◌, ◌≤◌, ◌<◌, ◌≡◌, Option, none, some, arith, u64_mod, add64, align_up,
}
use libhermit_mpk.Prelude.Align.{AlignsUp, align_up-pow}
use libhermit_mpk.Mm.HoleList.{HoleInfo, Layout, Allocation, min_size, aligned_start, split_hole}

-- The padding between the start of the hole and the allocation.
abbrev pub Front : HoleInfo → ℕ → Option HoleInfo → Type 0
Front h start none = start ≡ h.addr
Front h start (some p) = (p.addr ≡ h.addr) × (p.addr + p.size ≡ start) × (min_size ≤ p.size)

-- The padding between the allocation and the end of the hole.
abbrev pub Back : HoleInfo → ℕ → Option HoleInfo → Type 0
Back h end none = end ≡ h.addr + h.size
Back h end (some p) = (p.addr ≡ end) × (p.addr + p.size ≡ h.addr + h.size) × (min_size ≤ p.size)

pub record Splits (h : HoleInfo) (layout : Layout) (a : Allocation) : Type 0 where
  pub aligned : a.info.addr % layout.align ≡ 0
  pub sized : a.info.size ≡ layout.size
  pub front : Front h a.info.addr a.front_padding
  pub back : Back h (a.info.addr + layout.size) a.back_padding

module _ (h : HoleInfo) (k size : ℕ) (hk : k < 64)
    (small : h.addr + h.size + min_size + 2 ^ k + size < u64_mod) (big : min_size ≤ h.size) where
  start_lem :
      let (s, f) = aligned_start h (2 ^ k) in
      Front h s f × (h.addr ≤ s) × (s % 2 ^ k ≡ 0) × (s < h.addr + min_size + 2 ^ k)
  unfolding aligned_start
  start_lem = rw no_wrap (ground (arith, here, behind))
    where
      no_wrap : add64 h.addr min_size ≡ h.addr + min_size
      no_wrap = omega arith

      here : AlignsUp h.addr (2 ^ k) (align_up h.addr (2 ^ k))
      here = align_up-pow k h.addr hk (omega arith)

      behind : AlignsUp (h.addr + min_size) (2 ^ k) (align_up (h.addr + min_size) (2 ^ k))
      behind = align_up-pow k (h.addr + min_size) hk (omega arith)

  pub split_hole-Splits :
      (a : Allocation)
      → split_hole h (record { size = size; align = 2 ^ k }) ≡ some a
      → Splits h (record { size = size; align = 2 ^ k }) a
  unfolding split_hole
  split_hole-Splits a e = ground (arith, start_lem)
