-- ===== src/Scheduler/PerCoreScheduler/Scheduled.antt =====
-- The state of a core between calls, and what a call of the scheduler promises.
use libhermit_mpk.Prelude.{
  ℕ, ◌<◌, ◌≡◌, ◌≢◌, subst, true, false, Option, none, some, List, [], ◌∷◌, ◌++◌, arith,
}
use libhermit_mpk.Scheduler.Task.{TaskStatus, Tasks, no_priorities, update}
use libhermit_mpk.Scheduler.PriorityTaskQueue.{PriorityTaskQueue}
use libhermit_mpk.Scheduler.PriorityTaskQueue.Chain.{has, has-append}
use libhermit_mpk.Scheduler.PriorityTaskQueue.Queues.{Queues, IsQueues, IsQueues-links}
use libhermit_mpk.Scheduler.Kernel.{PerCoreScheduler}
use libhermit_mpk.Scheduler.PerCoreScheduler.{Switched, set_status}

-- What holds between calls: the queue stands for the lists, queued tasks are ready, the idle task
-- is idle, and the current task has a valid priority and is not queued.
pub record IsCore (ts : Tasks) (s : PerCoreScheduler) (lists : Queues) : Type 0 where
  pub queues : IsQueues ts s.state.ready_queue lists
  pub ready : (j a : ℕ) → has a (lists j) ≡ true → (ts a).status ≡ TaskStatus.ready
  pub idle : (ts s.idle_task).status ≡ TaskStatus.idle
  pub valid : (ts s.current_task).prio < no_priorities
  pub ids : (a : ℕ) → (ts a).id ≡ (ts s.current_task).id → a ≡ s.current_task
  pub out : has s.current_task (lists (ts s.current_task).prio) ≡ false

-- After the switch a task of the highest priority runs, or the idle task if no task is ready.
pub data Runs (ts : Tasks) (current : ℕ) (lists : Queues) : Type 0 where
  running :
      (ts current).status ≡ TaskStatus.running
      → ((j : ℕ) → (ts current).prio < j → lists j ≡ [])
      → Runs ts current lists
  idling : (ts current).status ≡ TaskStatus.idle → ((j : ℕ) → lists j ≡ []) → Runs ts current lists

pub record Scheduled (ts : Tasks) (s : PerCoreScheduler) (lists : Queues) (us : Tasks)
    (s' : PerCoreScheduler) : Type 0 where
  pub lists' : Queues
  pub queues : IsQueues us s'.state.ready_queue lists'
  pub runs : Runs us s'.current_task lists'
  pub kept : (j a : ℕ) → has a (lists j) ≡ true → a ≢ s'.current_task → has a (lists' j) ≡ true
  pub requeued :
      (ts s.current_task).status ≡ TaskStatus.running
      → s'.current_task ≢ s.current_task
      → has s.current_task (lists' (ts s.current_task).prio) ≡ true

abbrev pub Schedules : Tasks → PerCoreScheduler → Queues → Option Switched → Type 0
Schedules ts s lists none = ⊥
Schedules ts s lists (some (us, s', to)) = Scheduled ts s lists us s'

pub set_status-IsQueues :
    (ts : Tasks) (q : PriorityTaskQueue) (lists : Queues) (t : ℕ) (status : TaskStatus)
    → IsQueues ts q lists
    → IsQueues (set_status ts t status) q lists
set_status-IsQueues ts q lists t status v =
    IsQueues-links ts (set_status ts t status) q lists (λ a. (ground arith, ground arith))
      (λ a. ground arith) v

-- A task at the end of the list of its priority.
abbrev pub snoc : Queues → ℕ → ℕ → Queues
snoc ls p c = update ls p (ls p ++ c ∷ [])

pub has-snoc : (ls : Queues) (p c j a : ℕ) → has a (ls j) ≡ true → has a (snoc ls p c j) ≡ true
has-snoc ls p c j a m = ground (arith, has-append a (ls p) (c ∷ []))

pub has-snoc_self : (ls : Queues) (p c : ℕ) → has c (snoc ls p c p) ≡ true
has-snoc_self ls p c = ground (arith, has-append c (ls p) (c ∷ []))

-- A task that is taken from the front of a list leaves the others.
pub has-uncons :
    (ls : Queues) (i t : ℕ) (rest : List ℕ) (j a : ℕ)
    → ls i ≡ t ∷ rest
    → has a (ls j) ≡ true
    → a ≢ t
    → has a (update ls i rest j) ≡ true
has-uncons ls i t rest j a e m ne = ground (arith, subst (λ xs. has a xs ≡ true) e)

pub has-uncons_out :
    (ls : Queues) (i t : ℕ) (rest : List ℕ) (j a : ℕ)
    → ls i ≡ t ∷ rest
    → has a (ls j) ≡ false
    → has a (update ls i rest j) ≡ false
has-uncons_out ls i t rest j a e m = ground (arith, subst (λ xs. has a xs ≡ false) e)

pub set_status-other :
    (us : Tasks) (a t : ℕ) (status : TaskStatus) → t ≢ a → set_status us a status t ≡ us t
set_status-other us a t status ne = ground arith
