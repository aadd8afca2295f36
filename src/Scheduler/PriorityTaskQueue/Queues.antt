-- ===== src/Scheduler/PriorityTaskQueue/Queues.antt =====
-- What a priority queue stands for: a list of tasks for each priority, oldest first.
use libhermit_mpk.Prelude.TestBit.{zero-bit}
use native.Mathlib.Decide.{dec_lt}
use libhermit_mpk.Prelude.{ap, subst, sym, ◌∙◌}
use libhermit_mpk.Prelude.{Bool-cases, inl, inr, ltb}
use libhermit_mpk.Prelude.{
  ℕ, zero, suc, ◌^◌, ◌≤◌, ◌<◌, ◌≡◌, refl, true, Option, none, some, List, [], ◌∷◌, arith, u64_mod,
  bit_or, bit_and, not64,
}
use libhermit_mpk.Prelude.Bits.{pow_mono}
use libhermit_mpk.Prelude.TestBit.{
  bit, bit-le, bit-bit_and, bit-bit_or, bit-pow_self, bit-pow_ne, bit-not64, bit_or-lt, bit_and-lt,
  eq-zero_of_bits,
}
use libhermit_mpk.Scheduler.Task.{Tasks, no_priorities, update}
use libhermit_mpk.Scheduler.PriorityTaskQueue.{PriorityTaskQueue, new, bsr, msb}
use libhermit_mpk.Scheduler.PriorityTaskQueue.Chain.{Chain-frame, has, Chain}

abbrev pub Queues : Type 0
Queues = ℕ → List ℕ

abbrev pub filled : List ℕ → ℕ
filled [] = 0
filled (x ∷ xs) = 1

-- The bitmap has exactly the bits of the priorities whose list is not empty.
pub record Marks (bitmap : ℕ) (lists : Queues) : Type 0 where
  pub word : bitmap < u64_mod
  pub bits : (i : ℕ) → i < 64 → bit bitmap i ≡ filled (lists i)

pub record IsQueues (ts : Tasks) (q : PriorityTaskQueue) (lists : Queues) : Type 0 where
  pub chains : (i : ℕ) → Chain ts none (q.heads i) (q.tails i) (lists i)
  pub marks : Marks q.prio_bitmap lists
  pub prios : (i a : ℕ) → has a (lists i) ≡ true → (ts a).prio ≡ i
  pub in_range : (i : ℕ) → no_priorities ≤ i → lists i ≡ []

-- A queue does not read more of a task than its links and its priority.
Chain-links :
    (ts us : Tasks) (before head tail : Option ℕ) (xs : List ℕ)
    → ((a : ℕ) → ((us a).next ≡ (ts a).next) × ((us a).prev ≡ (ts a).prev))
    → Chain ts before head tail xs
    → Chain us before head tail xs
Chain-links ts us before head tail [] same c = c
Chain-links ts us before head tail (x ∷ xs) same c = (
  c.0,
  (same x).1 ∙ c.1,
  c.2,
  subst (λ n. Chain us (some x) n tail xs) (sym (same x).0)
      (Chain-links ts us (some x) (ts x).next tail xs same c.3),
)

pub IsQueues-links :
    (ts us : Tasks) (q : PriorityTaskQueue) (lists : Queues)
    → ((a : ℕ) → ((us a).next ≡ (ts a).next) × ((us a).prev ≡ (ts a).prev))
    → ((a : ℕ) → (us a).prio ≡ (ts a).prio)
    → IsQueues ts q lists
    → IsQueues us q lists
IsQueues-links ts us q lists same prio v = record {
  chains = λ i. Chain-links ts us none (q.heads i) (q.tails i) (lists i) same (v.chains i);
  marks = v.marks;
  prios = λ i a m. prio a ∙ v.prios i a m;
  in_range = v.in_range;
}

-- A change outside the tasks of a queue leaves it.
pub IsQueues-frame :
    (ts us : Tasks) (q : PriorityTaskQueue) (lists : Queues)
    → ((i a : ℕ) → has a (lists i) ≡ true → us a ≡ ts a)
    → IsQueues ts q lists
    → IsQueues us q lists
IsQueues-frame ts us q lists same v = record {
  chains = λ i. Chain-frame ts us none (q.heads i) (q.tails i) (lists i) (same i) (v.chains i);
  marks = v.marks;
  prios = λ i a m. ap (λ x. x.prio) (same i a m) ∙ v.prios i a m;
  in_range = v.in_range;
}

-- The new queue has only empty lists.
pub new-IsQueues : (ts : Tasks) → IsQueues ts new (λ i. [])
unfolding new
new-IsQueues ts = record {
  chains = λ i. (refl, refl);
  marks = record { word = omega arith; bits = λ i lt. zero-bit i };
  prios = λ i a m. absurd (ground arith);
  in_range = λ i ge. refl;
}

-- Setting and clearing the bit of a priority.
pub Marks-set :
    (bitmap i : ℕ) (lists : Queues) (x : ℕ) (xs : List ℕ)
    → i < no_priorities
    → Marks bitmap lists
    → Marks (bit_or bitmap (2 ^ i)) (update lists i (x ∷ xs))
Marks-set bitmap i lists x xs lt m = record {
  word = bit_or-lt 64 bitmap (2 ^ i) m.word (omega (arith, pow_mono i 31 (omega arith)));
  bits = λ j hj. ground (
    arith,
    m.bits j hj,
    bit-bit_or j bitmap (2 ^ i),
    bit-pow_self i,
    bit-pow_ne i j,
    bit-le bitmap j,
  );
}

pub Marks-clear :
    (bitmap i : ℕ) (lists : Queues)
    → i < no_priorities
    → Marks bitmap lists
    → Marks (bit_and bitmap (not64 (2 ^ i))) (update lists i [])
Marks-clear bitmap i lists lt m = record {
  word = bit_and-lt 64 bitmap (not64 (2 ^ i)) m.word;
  bits = λ j hj. ground (
    arith,
    m.bits j hj,
    bit-bit_and j bitmap (not64 (2 ^ i)),
    bit-pow_self i,
    bit-pow_ne i j,
    bit-not64 j (2 ^ i) hj (omega (arith, pow_mono i 31)),
    bit-le bitmap j,
  );
}

-- `msb` finds the highest priority that has a task.
pub data Highest (lists : Queues) : Option ℕ → Type 0 where
  empty : ((i : ℕ) → lists i ≡ []) → Highest lists none
  at :
      (i x : ℕ) (xs : List ℕ)
      → i < no_priorities
      → lists i ≡ x ∷ xs
      → ((j : ℕ) → i < j → lists j ≡ [])
      → Highest lists (some i)

bsr-above : (n v j : ℕ) → bsr n v < j → j ≤ n → bit v j ≡ 0
unfolding bsr
bsr-above zero v j lt le = absurd (omega arith)
bsr-above (suc n) v j lt le = ground (arith, bsr-above n v j, bit-le v (suc n))

bsr-zero : (n v j : ℕ) → bit v (bsr n v) ≡ 0 → j ≤ n → bit v j ≡ 0
unfolding bsr
bsr-zero zero v zero e le = e
bsr-zero zero v (suc j) e le = absurd (omega arith)
bsr-zero (suc n) v j e le = ground (arith, bsr-zero n v j, bit-le v (suc n))

bsr-le : (n v : ℕ) → bsr n v ≤ n
unfolding bsr
bsr-le zero v = omega arith
bsr-le (suc n) v = ground (arith, bsr-le n v)

bsr-bit : (v : ℕ) → 0 < v → v < u64_mod → bit v (bsr 63 v) ≡ 1
bsr-bit v pos word = ground (arith, bit-le v (bsr 63 v), none_set)
  where
    none_set : bit v (bsr 63 v) ≡ 0 → ⊥
    none_set e =
        let z : v ≡ 0 = eq-zero_of_bits 64 v word (λ j lt. bsr-zero 63 v j e (omega arith)) in
        omega arith

pub empty_of_filled : (xs : List ℕ) → filled xs ≡ 0 → xs ≡ []
empty_of_filled [] e = refl
empty_of_filled (x ∷ xs) e = absurd (omega arith)

pub head_of_filled : (xs : List ℕ) → filled xs ≡ 1 → (x : ℕ) × (ys : List ℕ) × (xs ≡ x ∷ ys)
head_of_filled [] e = absurd (omega arith)
head_of_filled (x ∷ xs) e = (x, xs, refl)

module _ (bitmap : ℕ) (lists : Queues) (m : Marks bitmap lists)
    (in_range : (i : ℕ) → no_priorities ≤ i → lists i ≡ []) where
  -- A list is empty if its bit is not set, or its priority has none.
  empty_list : (i : ℕ) → (i < 64 → bit bitmap i ≡ 0) → lists i ≡ []
  empty_list i clear = elim (dec_lt i 64) [
    | yes lt ↦ empty_of_filled (lists i) (omega (arith, m.bits i lt, clear lt))
    | no ge ↦ in_range i (omega arith)
  ]

  -- `msb` of the bitmap is the highest priority that has a task.
  pub msb-Highest : Highest lists (msb bitmap)
  unfolding msb
  msb-Highest = elim (Bool-cases (ltb 0 bitmap)) [
    | inr zero_map ↦
        let e : bitmap ≡ 0 = ground arith in
        rw zero_map (empty (λ i. empty_list i (λ _. rw e (zero-bit i))))
    | inl set ↦
        let (x, xs, e) =
          head_of_filled (lists top) (omega (arith, m.bits top, below, found (ground arith))) in
        rw set (
          at top x xs (ground (arith, in_range top)) e
            (λ j lt. empty_list j (λ h. bsr-above 63 bitmap j lt (omega arith))))
  ]
    where
      top : ℕ
      top = bsr 63 bitmap

      below : bsr 63 bitmap ≤ 63
      below = bsr-le 63 bitmap

      found : 0 < bitmap → bit bitmap (bsr 63 bitmap) ≡ 1
      found pos = bsr-bit bitmap pos m.word
