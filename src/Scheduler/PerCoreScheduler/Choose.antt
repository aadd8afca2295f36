-- ===== src/Scheduler/PerCoreScheduler/Choose.antt =====
-- Which task the scheduler chooses.
use libhermit_mpk.Prelude.{
  ℕ, suc, ◌+◌, ◌%◌, ◌≤◌, ◌<◌, ◌≡◌, ◌≢◌, Bool, true, false, Option, none, some, List, [], ◌∷◌, arith,
  ◌>>=◌, Bool-cases, inl, inr,
}
use libhermit_mpk.Scheduler.Task.{
  TaskStatus, status_eq, status_eq-true, status_eq-false, Task, Tasks, no_priorities, update,
}
use libhermit_mpk.Scheduler.PriorityTaskQueue.{PriorityTaskQueue}
use libhermit_mpk.Scheduler.PriorityTaskQueue as queue
use libhermit_mpk.Scheduler.PriorityTaskQueue.Queues.{Queues, IsQueues}
use libhermit_mpk.Scheduler.PriorityTaskQueue.Laws.{SameTasks}
use libhermit_mpk.Scheduler.PriorityTaskQueue.Pops.{
  Popped, nothing, taken, pop-Popped, pop_with_prio-Popped,
}
use libhermit_mpk.Scheduler.Kernel.{PerCoreScheduler}
use libhermit_mpk.Scheduler.PerCoreScheduler.{Choice, choose, or_same_prio, or_idle}

-- A task of the ready queue is taken if the current one does not run, or has no higher priority;
-- the running one goes on if no other has a higher priority; else the idle task runs.
pub data Chosen (ts : Tasks) (s : PerCoreScheduler) (lists : Queues) : Option Choice → Type 0 where
  keeps :
      (q : PriorityTaskQueue)
      → (ts s.current_task).status ≡ TaskStatus.running
      → ((j : ℕ) → (ts s.current_task).prio < j → lists j ≡ [])
      → IsQueues ts q lists
      → Chosen ts s lists (some (none, ts, q))
  halts :
      (q : PriorityTaskQueue)
      → (ts s.current_task).status ≡ TaskStatus.idle
      → ((j : ℕ) → lists j ≡ [])
      → IsQueues ts q lists
      → Chosen ts s lists (some (none, ts, q))
  idles :
      (q : PriorityTaskQueue)
      → (ts s.current_task).status ≢ TaskStatus.running
      → (ts s.current_task).status ≢ TaskStatus.idle
      → ((j : ℕ) → lists j ≡ [])
      → IsQueues ts q lists
      → Chosen ts s lists (some (some s.idle_task, ts, q))
  takes :
      (i t : ℕ) (rest : List ℕ) (us : Tasks) (q : PriorityTaskQueue)
      → ((ts s.current_task).status ≡ TaskStatus.running → (ts s.current_task).prio ≤ i)
      → ((j : ℕ) → i < j → lists j ≡ [])
      → lists i ≡ t ∷ rest
      → IsQueues us q (update lists i rest)
      → SameTasks ts us
      → Chosen ts s lists (some (some t, us, q))

module _ (now : ℕ) (ts : Tasks) (s : PerCoreScheduler) (lists : Queues)
    (v : IsQueues ts s.state.ready_queue lists) where
  abbrev cur : Task
  cur = ts s.current_task

  same_prio-Chosen :
      (expired : Bool) (r : Option Choice)
      → cur.status ≡ TaskStatus.running
      → Popped ts lists (suc cur.prio) r
      → Chosen ts s lists (r >>= λ c. or_same_prio expired cur.prio c)
  same_prio-Chosen false _ e (nothing q above v') = keeps q e (λ j lt. above j (omega arith)) v'
  same_prio-Chosen true _ e (nothing q above v') =
      second (queue.pop_with_prio ts q cur.prio) (pop_with_prio-Popped ts q lists cur.prio v')
    where
      second : (r : Option Choice) → Popped ts lists cur.prio r → Chosen ts s lists r
      second _ (nothing q' above' w) = keeps q' e (λ j lt. above' j (omega arith)) w
      second _ (taken i t rest us q' le above' l w same n p) =
          takes i t rest us q' (λ _. le) above' l w same
  same_prio-Chosen expired _ e (taken i t rest us q le above l w same n p) =
      takes i t rest us q (λ _. omega arith) above l w same

  idle-Chosen :
      (r : Option Choice)
      → cur.status ≢ TaskStatus.running
      → Popped ts lists 0 r
      → Chosen ts s lists
          (r >>= λ c. some (or_idle (status_eq cur.status TaskStatus.idle) s.idle_task c))
  idle-Chosen _ ne (nothing q none_at w) =
      elim (Bool-cases (status_eq cur.status TaskStatus.idle)) [
        | inl e ↦
            rw e (
              halts q (status_eq-true cur.status TaskStatus.idle e) (λ j. none_at j (omega arith))
                w)
        | inr e ↦ rw e (
            idles q ne (status_eq-false cur.status TaskStatus.idle e) (λ j. none_at j (omega arith))
              w)
      ]
  idle-Chosen _ ne (taken i t rest us q le above l w same n p) =
      takes i t rest us q (λ e. absurd (ne e)) above l w same

-- `choose` decides as `Chosen` says, for any state of the ready queue and of the current task.
pub choose-Chosen :
    (now : ℕ) (ts : Tasks) (s : PerCoreScheduler) (lists : Queues)
    → IsQueues ts s.state.ready_queue lists
    → (ts s.current_task).prio < no_priorities
    → Chosen ts s lists (choose now ts s)
unfolding choose
choose-Chosen now ts s lists v lt =
    elim (Bool-cases (status_eq (ts s.current_task).status TaskStatus.running)) [
      | inl e ↦
          rw (e, byte)
            (same_prio-Chosen now ts s lists v _ _
              (status_eq-true (ts s.current_task).status TaskStatus.running e)
              (pop_with_prio-Popped ts s.state.ready_queue lists (suc (ts s.current_task).prio) v))
      | inr e ↦ rw e (
          idle-Chosen now ts s lists v _
            (status_eq-false (ts s.current_task).status TaskStatus.running e)
            (pop-Popped ts s.state.ready_queue lists v))
    ]
  where
    byte : ((ts s.current_task).prio + 1) % 256 ≡ suc (ts s.current_task).prio
    byte = omega arith
