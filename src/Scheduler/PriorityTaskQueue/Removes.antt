-- ===== src/Scheduler/PriorityTaskQueue/Removes.antt =====
-- `remove` and the tail it leaves behind.
use libhermit_mpk.Prelude.{
  ◌>>=◌, ℕ, suc, ◌^◌, ◌≤◌, ◌<◌, ◌≡◌, refl, subst, Option, none, some, List, [], ◌∷◌, arith, bit_or,
  bit_and, not64,
}
use libhermit_mpk.Scheduler.Task.{set_links, Tasks, no_priorities, update}
use libhermit_mpk.Scheduler.PriorityTaskQueue.{
  without_head, PriorityTaskQueue, msb, meets, remove, push, link_last, head_after, pop,
  pop_from_queue,
}
use libhermit_mpk.Scheduler.PriorityTaskQueue.Chain.{Chain}
use libhermit_mpk.Scheduler.PriorityTaskQueue.Queues.{
  Queues, Marks, IsQueues, Marks-set, Marks-clear, Highest, empty, at, msb-Highest,
}
use libhermit_mpk.Scheduler.PriorityTaskQueue.Laws.{update_self, ==_refl, ltb_lt}

-- A task is taken out, another one is queued, and the next one is popped.
abbrev pub remove_push_pop : ℕ → Tasks → PriorityTaskQueue → ℕ → ℕ → Option (Option ℕ)
remove_push_pop fuel ts q t u = do
  removed ← remove fuel ts q t
  pushed ← push removed.0 removed.1 u
  popped ← pop pushed.0 pushed.1
  some popped.0

pub Highest-at :
    (lists : Queues) (i x : ℕ) (xs : List ℕ) (top : Option ℕ)
    → lists i ≡ x ∷ xs
    → ((j : ℕ) → i < j → lists j ≡ [])
    → Highest lists top
    → top ≡ some i
Highest-at lists i x xs none e above (empty all) = absurd (ground (arith, all i))
Highest-at lists i x xs (some j) e above (at _ y ys lt ey above') =
    ground (arith, above j, above' i, e, ey)

module _ (ts : Tasks) (q : PriorityTaskQueue) (t u : ℕ) (lt : (ts t).prio < no_priorities)
    (head : q.heads (ts t).prio ≡ some t) (tail : q.tails (ts t).prio ≡ some t)
    (next : (ts t).next ≡ none) (prev : (ts t).prev ≡ none)
    (u-prio : (ts u).prio ≡ (ts t).prio) where
  abbrev i : ℕ
  i = (ts t).prio

  abbrev after : PriorityTaskQueue
  after = record q {
    heads = update q.heads i none;
    prio_bitmap = bit_and q.prio_bitmap (not64 (2 ^ i));
  }

  remove_lem : (fuel : ℕ) → remove (suc fuel) ts q t ≡ some (ts, after)
  unfolding remove meets
  remove_lem fuel =
      rw (ltb_lt i no_priorities lt, head, ==_refl t, next, prev, head, ==_refl t, next) refl

  abbrev pushed : PriorityTaskQueue
  pushed = record {
    heads = head_after after (ts u).prio u (q.tails (ts u).prio);
    tails = update q.tails (ts u).prio (some u);
    prio_bitmap = bit_or (bit_and q.prio_bitmap (not64 (2 ^ i))) (2 ^ (ts u).prio);
  }

  push_lem : push ts after u ≡ some (link_last ts u (q.tails (ts u).prio), pushed)
  unfolding push
  push_lem = rw (ltb_lt (ts u).prio no_priorities (rw u-prio lt)) refl

  pushed-head : pushed.heads i ≡ none
  pushed-head = rw (u-prio, tail) (update_self q.heads i none)

  pop_lem :
      (us : Tasks) (r : PriorityTaskQueue)
      → msb r.prio_bitmap ≡ some i
      → r.heads i ≡ none
      → pop us r ≡ some (none, us, r)
  unfolding pop pop_from_queue
  pop_lem us r top none_at = rw (top, ltb_lt i no_priorities lt, none_at, pop) refl

  lost :
      (fuel : ℕ) → msb pushed.prio_bitmap ≡ some i → remove_push_pop (suc fuel) ts q t u ≡ some none
  lost fuel top =
      rw
        (
          remove_lem fuel,
          push_lem,
          pop_lem (link_last ts u (q.tails (ts u).prio)) pushed top pushed-head,
        )
        refl

-- The bit of the priority is cleared and set again.
top_lem :
    (bitmap : ℕ) (lists : Queues) (i k u : ℕ)
    → i < no_priorities
    → Marks bitmap lists
    → ((j : ℕ) → no_priorities ≤ j → lists j ≡ [])
    → k ≡ i
    → ((j : ℕ) → i < j → lists j ≡ [])
    → msb (bit_or (bit_and bitmap (not64 (2 ^ i))) (2 ^ k)) ≡ some i
top_lem bitmap lists i k u lt m in_range same above =
    Highest-at after i u [] (msb (bit_or (bit_and bitmap (not64 (2 ^ i))) (2 ^ k)))
      (update_self (update lists i []) i (u ∷ [])) (λ j gt. ground (arith, above j))
      (rw same (
        msb-Highest (bit_or (bit_and bitmap (not64 (2 ^ i))) (2 ^ i)) after
          (Marks-set (bit_and bitmap (not64 (2 ^ i))) i (update lists i []) u [] lt
            (Marks-clear bitmap i lists lt m))
          (λ j ge. ground (arith, in_range j))))
  where
    after : Queues
    after = update (update lists i []) i (u ∷ [])

-- Taking out the only task of a list leaves the list's tail, so the task that is queued there next is
-- lost: if no task has a higher priority, its priority is the highest that is marked, and `pop` finds
-- nothing, although the task was queued.
pub remove-push_lost :
    (fuel : ℕ) (ts : Tasks) (q : PriorityTaskQueue) (lists : Queues) (t u : ℕ)
    → IsQueues ts q lists
    → lists (ts t).prio ≡ t ∷ []
    → ((j : ℕ) → (ts t).prio < j → lists j ≡ [])
    → (ts u).prio ≡ (ts t).prio
    → remove_push_pop (suc fuel) ts q t u ≡ some none
remove-push_lost fuel ts q lists t u v only above same =
    let lt : (ts t).prio < no_priorities = ground (arith, v.in_range (ts t).prio) in
    let c : Chain ts none (q.heads (ts t).prio) (q.tails (ts t).prio) (t ∷ []) =
      subst (λ xs. Chain ts none (q.heads (ts t).prio) (q.tails (ts t).prio) xs) only
        (v.chains (ts t).prio) in
    lost ts q t u lt c.0 c.3.1 c.3.0 c.1 same fuel
      (top_lem q.prio_bitmap lists (ts t).prio (ts u).prio u lt v.marks v.in_range same above)

-- A task without a successor leaves its list empty when it is popped.
pub pop_head :
    (ts : Tasks) (q : PriorityTaskQueue) (j t : ℕ)
    → msb q.prio_bitmap ≡ some j
    → j < no_priorities
    → q.heads j ≡ some t
    → (ts t).next ≡ none
    → (us : Tasks) × (r : PriorityTaskQueue) × (pop ts q ≡ some (some t, us, r))
      × (r.heads j ≡ none)
unfolding pop pop_from_queue
pop_head ts q j t top lt head last = (
  set_links ts t none none,
  without_head q j none,
  rw (top, ltb_lt j no_priorities lt, head, last, pop) refl,
  update_self q.heads j none,
)
