-- ===== src/Synch/Semaphore/Rounds.antt =====
-- What a round of `acquire` does.
use libhermit_mpk.Prelude.{
  ℕ, ◌<◌, ◌≡◌, ◌≢◌, refl, ap, ◌∙◌, subst, true, false, ◌&&◌, is_some, if◌then◌else◌, Option, none,
  some, List, [], ◌∷◌, ◌++◌, arith, sub64, Bool-cases, inl, inr,
}
use libhermit_mpk.Scheduler.Task.{TaskStatus, BlockedTask, no_priorities, update}
use libhermit_mpk.Scheduler.PriorityTaskQueue.{PriorityTaskQueue}
use libhermit_mpk.Scheduler.PriorityTaskQueue as queue
use libhermit_mpk.Scheduler.PriorityTaskQueue.Chain.{has}
use libhermit_mpk.Scheduler.PriorityTaskQueue.Queues.{Queues, IsQueues, IsQueues-frame}
use libhermit_mpk.Scheduler.PriorityTaskQueue.Laws.{push-Pushes, pushed}
use libhermit_mpk.Scheduler.BlockedTaskQueue as blocked_queue
use libhermit_mpk.Scheduler.BlockedTaskQueue.Elapsed.{sorted_from}
use libhermit_mpk.Scheduler.BlockedTaskQueue.Order.{Adds, Added, add-Adds, Placed, is_empty}
use libhermit_mpk.Scheduler.Kernel.{Kernel, PerCoreScheduler}
use libhermit_mpk.Synch.Semaphore.{
  SemaphoreState, Round, is_positive, is_timer, wait, acquire_round,
}

-- A free resource is taken; or the task is blocked, stands last of its priority in the queue of the
-- semaphore, and with the time it waits for in the list of blocked tasks of its core, behind those
-- that do not wait longer. The timer is set if it waits for a time and is the first.
pub data Rounds (k : Kernel) (c : ℕ) (s : PerCoreScheduler) (state : SemaphoreState)
    (lists : Queues) (time : Option ℕ) : Option (Round × Kernel × SemaphoreState) → Type 0 where
  gets :
      is_positive state.count ≡ true
      → Rounds k c s state lists time
          (some (Round.acquired, k, record state { count = sub64 state.count 1 }))
  blocks :
      (k' : Kernel) (q : PriorityTaskQueue) (list before after : List BlockedTask)
      → is_positive state.count ≡ false
      → (k'.tasks s.current_task).status ≡ TaskStatus.blocked
      → IsQueues k'.tasks q (
          update lists
            (k.tasks s.current_task).prio
            (lists (k.tasks s.current_task).prio ++ s.current_task ∷ []))
      → k'.schedulers c ≡ some (record s { blocked_tasks = list })
      → sorted_from (some 0) list ≡ true
      → Placed s.blocked_tasks (blocked_queue.blocked s.current_task time) list before after
      → k'.oneshot k.here ≡ (if is_empty before && is_some time then time else k.oneshot k.here)
      → Rounds k c s state lists time (some (Round.waits, k', record state { queue = q }))

-- The kernel and the list after `add`.
added :
    (k : Kernel) (list : List BlockedTask) (task : ℕ) (time : Option ℕ)
    (r : Option (Kernel × List BlockedTask))
    → Adds k list task time r
    → (k' : Kernel) × (list' : List BlockedTask) × (r ≡ some (k', list'))
      × Added k list task time k' list'
added k list task time none a = absurd a
added k list task time (some (k', list')) a = (k', list', refl, a)

module _ (k : Kernel) (c : ℕ) (s : PerCoreScheduler) (state : SemaphoreState) (lists : Queues)
    (time : Option ℕ) (v : IsQueues k.tasks state.queue lists)
    (runs : (k.tasks s.current_task).status ≡ TaskStatus.running)
    (lt : (k.tasks s.current_task).prio < no_priorities)
    (out : has s.current_task (lists (k.tasks s.current_task).prio) ≡ false)
    (sorted : sorted_from (some 0) s.blocked_tasks ≡ true) where
  abbrev cur : ℕ
  cur = s.current_task

  not_queued : (i t : ℕ) → has t (lists i) ≡ true → t ≢ cur
  not_queued i t m same =
      let m' : has cur (lists i) ≡ true = subst (λ (x : ℕ). has x (lists i) ≡ true) same m in
      let o : has cur (lists i) ≡ false =
        subst (λ (j : ℕ). has cur (lists j) ≡ false) (v.prios i cur m') out in
      ground arith

  wait-Rounds :
      is_positive state.count ≡ false → Rounds k c s state lists time (wait k c s state time)
  wait-Rounds e =
      let (k1, list, add_lem, a) =
        added k s.blocked_tasks cur time (blocked_queue.add k s.blocked_tasks cur time)
          (add-Adds k s.blocked_tasks cur time runs sorted) in
      let (before, after, placed, timer) = a.placed in
      let v1 =
        IsQueues-frame k.tasks k1.tasks state.queue lists (λ i t m. a.others t (not_queued i t m))
          v in
      let prio_lem : (k1.tasks cur).prio ≡ (k.tasks cur).prio = ap (λ x. x.prio) a.own in
      let (us, q, push_lem, w, same) =
        pushed k1.tasks lists cur (queue.push k1.tasks state.queue cur)
          (push-Pushes k1.tasks state.queue lists cur v1 (rw prio_lem lt) (rw prio_lem out)) in
      rw (add_lem, push_lem)
        (blocks _ q list before after e (ap (λ x. x.status) (same cur) ∙ ap (λ x. x.status) a.own)
          (subst (λ i. IsQueues us q (update lists i (lists i ++ cur ∷ []))) prio_lem w)
          (ground arith) a.sorted placed timer)

-- A round of `acquire` takes a resource if one is free, and changes nothing else. If none is, and the
-- last wakeup reason of the task is not its timer, the running task is blocked, queued behind the
-- waiters of its priority, and entered with the time that was asked for in the list of blocked tasks
-- of its core, in order; the timer of the core that runs is set to that time if there is one and the
-- task is the first. This does not panic if the queue and that list are in order, the task is not
-- queued at the semaphore and its priority is below 31.
pub acquire_round-Rounds :
    (fuel : ℕ) (k : Kernel) (c : ℕ) (s : PerCoreScheduler) (state : SemaphoreState) (lists : Queues)
    (time : Option ℕ)
    → k.schedulers c ≡ some s
    → IsQueues k.tasks state.queue lists
    → (k.tasks s.current_task).status ≡ TaskStatus.running
    → (k.tasks s.current_task).prio < no_priorities
    → has s.current_task (lists (k.tasks s.current_task).prio) ≡ false
    → sorted_from (some 0) s.blocked_tasks ≡ true
    → is_timer (k.tasks s.current_task).last_wakeup_reason ≡ false
    → Rounds k c s state lists time (acquire_round fuel k c state time)
unfolding acquire_round
acquire_round-Rounds fuel k c s state lists time own v runs lt out sorted reason =
    elim (Bool-cases (is_positive state.count)) [
      | inl e ↦ rw (own, e) (gets e)
      | inr e ↦ rw (own, e, reason) (wait-Rounds k c s state lists time v runs lt out sorted e)
    ]
