-- ===== src/Synch/Semaphore/Links.antt =====
-- A task has one pair of links, but can be in two queues at once.
use libhermit_mpk.Prelude.{
  ℕ, ◌<◌, ◌≡◌, ap, ◌∙◌, subst, Option, none, some, List, [], ◌∷◌, arith, ◌>>=◌,
}
use libhermit_mpk.Scheduler.Task.{Tasks, no_priorities}
use libhermit_mpk.Scheduler.PriorityTaskQueue.{PriorityTaskQueue, msb, link_last}
use libhermit_mpk.Scheduler.PriorityTaskQueue as queue
use libhermit_mpk.Scheduler.PriorityTaskQueue.Chain.{has, Chain}
use libhermit_mpk.Scheduler.PriorityTaskQueue.Queues.{Queues, IsQueues, msb-Highest}
use libhermit_mpk.Scheduler.PriorityTaskQueue.Laws.{push-some}
use libhermit_mpk.Scheduler.PriorityTaskQueue.Removes.{Highest-at, pop_head}

-- The timer makes a waiting task ready, and then the semaphore is released: the task that is
-- popped, and the new head of its priority in the queue of the semaphore.
abbrev pub time_out_release :
    Tasks → PriorityTaskQueue → PriorityTaskQueue → ℕ → Option (Option ℕ × Option ℕ)
time_out_release ts waiters ready task = do
  pushed ← queue.push ts ready task
  popped ← queue.pop pushed.0 waiters
  some (popped.0, popped.2.heads (ts task).prio)

link_last-next : (ts : Tasks) (t : ℕ) (tail : Option ℕ) → (link_last ts t tail t).next ≡ none
link_last-next ts t none = ground arith
link_last-next ts t (some l) = ground arith

-- The first of several waiters of the highest priority is made ready by its timer while it still
-- stands in the queue of the semaphore. Its links are overwritten, so all waiters behind it are lost:
-- the next release pops the task that has timed out, and the list is empty.
pub time_out-waiters_lost :
    (ts : Tasks) (waiters ready : PriorityTaskQueue) (lists : Queues) (i t u : ℕ) (rest : List ℕ)
    → IsQueues ts waiters lists
    → lists i ≡ t ∷ u ∷ rest
    → ((j : ℕ) → i < j → lists j ≡ [])
    → time_out_release ts waiters ready t ≡ some (some t, none)
time_out-waiters_lost ts waiters ready lists i t u rest v e above =
    let (q', pushed_lem) = push-some ts ready t (rw prio_lem lt) in
    let (us, r, popped_lem, head_lem) =
      pop_head (link_last ts t (ready.tails (ts t).prio)) waiters i t top lt c.0
        (link_last-next ts t (ready.tails (ts t).prio)) in
    rw (pushed_lem, popped_lem)
      (ap (λ (h : Option ℕ). some (some t, h)) (ap r.heads prio_lem ∙ head_lem))
  where
    prio_lem : (ts t).prio ≡ i
    prio_lem = v.prios i t (ap (λ xs. has t xs) e ∙ ground arith)

    lt : i < no_priorities
    lt = ground (arith, v.in_range i, e)

    c : Chain ts none (waiters.heads i) (waiters.tails i) (t ∷ u ∷ rest)
    c = subst (λ xs. Chain ts none (waiters.heads i) (waiters.tails i) xs) e (v.chains i)

    top : msb waiters.prio_bitmap ≡ some i
    top =
        Highest-at lists i t (u ∷ rest) (msb waiters.prio_bitmap) e above
          (msb-Highest waiters.prio_bitmap lists v.marks v.in_range)
