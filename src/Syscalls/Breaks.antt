-- ===== src/Syscalls/Breaks.antt =====
-- The end of the heap of the application, which `sbrk` moves.
use libhermit_mpk.Prelude.{
  ℕ, ◌+◌, ◌-◌, ◌^◌, ◌≤◌, ◌<◌, ◌≡◌, refl, Bool, true, false, none, some, ltb, leb, if◌then◌else◌,
  u64_mod, add64, sub64, arith, ◌>>◌, require,
}
use libhermit_mpk.Syscalls.{is_negative}
use libhermit_mpk.Syscalls.Tasks.{sbrk}

require_lem {ℓ} :
    {A : Type ℓ} (b : Bool) (x : A) → (require b >> some x) ≡ (if b then some x else none)
require_lem true x = refl
require_lem false x = refl

up_lem :
    (start end counter incr : ℕ)
    → incr < 2 ^ 63
    → counter < 2 ^ 63
    → sbrk start end counter incr
      ≡ (if leb (counter + incr) end then some (counter, counter + incr) else none)
unfolding sbrk
up_lem start end counter incr lt lt' =
    let s : is_negative incr ≡ false = ground arith in
    let e : add64 counter incr ≡ counter + incr = omega arith in
    rw (s, e) (require_lem (leb (counter + incr) end) (counter, counter + incr))

down_lem :
    (start end counter decr : ℕ)
    → 0 < decr
    → decr ≤ 2 ^ 63
    → decr ≤ counter
    → counter < 2 ^ 63
    → sbrk start end counter (u64_mod - decr)
      ≡ (if ltb start (counter - decr) then some (counter, counter - decr) else none)
unfolding sbrk
down_lem start end counter decr pos le le' lt =
    let s : is_negative (u64_mod - decr) ≡ true = ground arith in
    let e : sub64 counter (u64_mod - (u64_mod - decr)) ≡ counter - decr = omega arith in
    rw (s, e) (require_lem (ltb start (counter - decr)) (counter, counter - decr))

over_lem :
    (start end counter over : ℕ)
    → counter < over
    → over ≤ 2 ^ 63
    → start < 2 ^ 63
    → sbrk start end counter (u64_mod - over) ≡ some (counter, u64_mod - (over - counter))
unfolding sbrk
over_lem start end counter over lt le le' =
    let s : is_negative (u64_mod - over) ≡ true = ground arith in
    let e : sub64 counter (u64_mod - (u64_mod - over)) ≡ u64_mod - (over - counter) = omega arith in
    let b : ltb start (u64_mod - (over - counter)) ≡ true = ground arith in rw (s, e, b) refl

-- For a heap below 2 ^ 63 whose end is not above its limit, `sbrk` gives the old end. It moves the
-- end up by a positive increment if the heap has room, and down if the new end stays above the start
-- of the heap; otherwise it panics. A decrement by more than the old end is not refused: the end
-- wraps around and is 2 ^ 63 or above.
pub sbrk-moves :
    (start end counter incr decr over : ℕ)
    → start < 2 ^ 63
    → end < 2 ^ 63
    → counter ≤ end
    → incr < 2 ^ 63
    → 0 < decr
    → decr ≤ counter
    → counter < over
    → over ≤ 2 ^ 63
    → (sbrk start end counter incr
        ≡ (if leb (counter + incr) end then some (counter, counter + incr) else none))
      × (sbrk start end counter (u64_mod - decr)
          ≡ (if ltb start (counter - decr) then some (counter, counter - decr) else none))
      × (sbrk start end counter (u64_mod - over) ≡ some (counter, u64_mod - (over - counter)))
      × (2 ^ 63 ≤ u64_mod - (over - counter))
sbrk-moves start end counter incr decr over ls le lc li pos ld lo lo' = (
  up_lem start end counter incr li (omega arith),
  down_lem start end counter decr pos (omega arith) ld (omega arith),
  over_lem start end counter over lo lo' ls,
  omega arith,
)
