-- ===== src/Mm/HoleList.antt =====
-- src/mm/hole.rs: the sorted list of holes behind the kernel's heap.
-- A hole lives at its address, so a list of holes is the list of their addresses and sizes. The
-- dummy head has size 0; it stands in front of the list where the code starts from it. A failed
-- assertion is `none`.
pub mod Holes
pub mod Free
pub mod Split
pub mod Take
mod Tests
use libhermit_mpk.Prelude.{
  ℕ, ◌&&◌, Bool, Option, none, some, List, [], ◌∷◌, ltb, leb, ◌==◌, if◌then◌else◌, add64, sub64,
  align_up,
}

-- `Hole::info`.
pub record HoleInfo : Type 0 where
  pub addr : ℕ
  pub size : ℕ

abbrev pub hole : ℕ → ℕ → HoleInfo
hole a s = record { addr = a; size = s }

pub record Layout : Type 0 where
  pub size : ℕ
  pub align : ℕ

pub record Allocation : Type 0 where
  pub info : HoleInfo
  pub front_padding : Option HoleInfo
  pub back_padding : Option HoleInfo

abbrev pub min_size : ℕ
min_size = 64

-- The dummy head of the list.
abbrev pub dummy : HoleInfo
dummy = hole 0 0

-- `hole_addr` of `deallocate`.
abbrev pub hole_addr : HoleInfo → ℕ
hole_addr h = if h.size == 0 then 0 else h.addr

-- The two assertions of a round of `deallocate`, and what follows them.
abbrev pub checked : HoleInfo → ℕ → ℕ → Option (List HoleInfo) → Option (List HoleInfo)
checked h addr size result =
    if leb min_size size && leb (add64 (hole_addr h) h.size) addr then result else none

abbrev pub put_back : HoleInfo → Option (List HoleInfo) → Option (List HoleInfo)
put_back h none = none
put_back h (some rest) = some (h ∷ rest)

-- The loop of `deallocate`, at a hole and the holes behind it; the result starts with that hole.
pub deallocate : HoleInfo → List HoleInfo → ℕ → ℕ → Option (List HoleInfo)
deallocate h [] addr size = checked h addr size (
    if add64 (hole_addr h) h.size == addr
    then some (record h { size = add64 h.size size } ∷ [])
    else some (h ∷ hole addr size ∷ []))
deallocate h (next ∷ rest) addr size =
    let merged = deallocate h rest addr (add64 size next.size) in
    let delegated = deallocate next rest addr size in
    checked h addr size (
      if add64 (hole_addr h) h.size == addr && add64 addr size == next.addr
      then some (record h { size = add64 h.size (add64 size next.size) } ∷ rest)
      else if add64 (hole_addr h) h.size == addr
      then some (record h { size = add64 h.size size } ∷ next ∷ rest)
      else if add64 addr size == next.addr
      then merged
      else if leb next.addr addr
      then put_back h delegated
      else some (h ∷ hole addr size ∷ next ∷ rest))

-- The aligned start of an allocation in a hole, and the padding in front of it.
aligned_start : HoleInfo → ℕ → ℕ × Option HoleInfo
aligned_start h align =
    let start = align_up (add64 h.addr min_size) align in
    if h.addr == align_up h.addr align
    then (h.addr, none)
    else (start, some (hole h.addr (sub64 start h.addr)))

pub split_hole : HoleInfo → Layout → Option Allocation
split_hole h layout =
    let (start, front) = aligned_start h layout.align in
    let aligned_size = sub64 h.size (sub64 start h.addr) in
    let back = hole (add64 start layout.size) (sub64 aligned_size layout.size) in
    let info = hole start layout.size in
    if ltb (add64 h.addr h.size) (add64 start layout.size)
    then none
    else if aligned_size == layout.size
    then some (record { info = info; front_padding = front; back_padding = none })
    else if ltb (sub64 aligned_size layout.size) min_size
    then none
    else some (record { info = info; front_padding = front; back_padding = some back })

-- One round of the search: the hole is used and leaves the list, or the search goes on behind it.
abbrev pub use_hole :
    HoleInfo
    → List HoleInfo
    → Option Allocation
    → Option (Allocation × List HoleInfo)
    → Option (Allocation × List HoleInfo)
use_hole h rest (some a) later = some (a, rest)
use_hole h rest none none = none
use_hole h rest none (some (a, rest')) = some (a, h ∷ rest')

-- The function `allocate_first_fit`, over the holes behind `previous`.
pub first_fit : List HoleInfo → Layout → Option (Allocation × List HoleInfo)
first_fit [] layout = none
first_fit (h ∷ rest) layout = use_hole h rest (split_hole h layout) (first_fit rest layout)

-- A call of `deallocate` from the dummy head.
pub give_back : List HoleInfo → HoleInfo → Option (List HoleInfo)
give_back holes block = elim (deallocate dummy holes block.addr block.size) [
  | none ↦ none
  | some l ↦ elim l [ [] ↦ none | first ∷ rest ↦ some rest ]
]

abbrev pub give_padding : Option HoleInfo → List HoleInfo → Option (List HoleInfo)
give_padding none holes = some holes
give_padding (some p) holes = give_back holes p

pub data Outcome : Type 0 where
  panic : Outcome
  alloc_err : List HoleInfo → Outcome
  allocated : ℕ → List HoleInfo → Outcome

-- The pointer must not be null.
abbrev pub finish : ℕ → Option (List HoleInfo) → Outcome
finish addr none = panic
finish addr (some holes) = if addr == 0 then panic else allocated addr holes

abbrev pub give_second : Option HoleInfo → Option (List HoleInfo) → Option (List HoleInfo)
give_second p none = none
give_second p (some holes) = give_padding p holes

-- `HoleList::allocate_first_fit`: the paddings of the allocation go back to the list.
abbrev pub give_paddings : List HoleInfo → Option (Allocation × List HoleInfo) → Outcome
give_paddings holes none = alloc_err holes
give_paddings holes (some (a, rest)) =
    finish a.info.addr (give_second a.back_padding (give_padding a.front_padding rest))

pub allocate_first_fit : List HoleInfo → Layout → Outcome
allocate_first_fit holes layout =
    if leb min_size layout.size then give_paddings holes (first_fit holes layout) else panic
