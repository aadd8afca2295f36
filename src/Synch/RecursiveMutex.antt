-- ===== src/Synch/RecursiveMutex.antt =====
-- src/synch/recmutex.rs. The state is held by a spinlock in each step; `acquire` is a loop of rounds
-- between which the task may be switched away.
pub mod Owner
mod Tests
use libhermit_mpk.Prelude.{
  ℕ, Bool, true, false, Option, none, some, List, ◌==◌, if◌then◌else◌, add64, sub64, ◌>>=◌,
}
use libhermit_mpk.Scheduler.Task.{Task}
use libhermit_mpk.Scheduler.PriorityTaskQueue.{PriorityTaskQueue}
use libhermit_mpk.Scheduler.PriorityTaskQueue as queue
use libhermit_mpk.Scheduler.BlockedTaskQueue as blocked_queue
use libhermit_mpk.Scheduler.Kernel.{Kernel, PerCoreScheduler, set_scheduler}
use libhermit_mpk.Synch.Semaphore.{wake_popped}

pub record RecursiveMutexState : Type 0 where
  pub current_tid : Option ℕ
  pub count : ℕ
  pub queue : PriorityTaskQueue

-- `RecursiveMutex::new`.
pub new : RecursiveMutexState
new = record { current_tid = none; count = 0; queue = queue.new }

-- The state with the mutex taken by a task, or `none` if it must wait.
pub try_enter : RecursiveMutexState → ℕ → Option RecursiveMutexState
try_enter state tid = elim state.current_tid [
  | none ↦ some (record state { current_tid = some tid; count = 1 })
  | some current_tid ↦
      if current_tid == tid then some (record state { count = add64 state.count 1 }) else none
]

-- A round of `acquire`, on core `c`: whether the mutex was acquired.
abbrev pub wait :
    Kernel
    → ℕ
    → PerCoreScheduler
    → RecursiveMutexState
    → Option (Bool × Kernel × RecursiveMutexState)
wait k c s state = do
  added ← blocked_queue.add k s.blocked_tasks s.current_task none
  pushed ← queue.push added.0.tasks state.queue s.current_task
  some (
    false,
    record (set_scheduler added.0 c (record s { blocked_tasks = added.1 })) { tasks = pushed.0 },
    record state { queue = pushed.1 },
  )

abbrev pub enter_or_wait :
    Kernel
    → ℕ
    → PerCoreScheduler
    → RecursiveMutexState
    → Option RecursiveMutexState
    → Option (Bool × Kernel × RecursiveMutexState)
enter_or_wait k c s state (some entered) = some (true, k, entered)
enter_or_wait k c s state none = wait k c s state

pub acquire_round : Kernel → ℕ → RecursiveMutexState → Option (Bool × Kernel × RecursiveMutexState)
acquire_round k c state = do
  s ← k.schedulers c
  enter_or_wait k c s state (try_enter state (k.tasks s.current_task).id)

-- `release`: the last one frees the mutex and wakes a waiter.
abbrev pub free : Kernel → RecursiveMutexState → Option (Kernel × RecursiveMutexState)
free k state = do
  popped ← queue.pop k.tasks state.queue
  k' ← wake_popped (record k { tasks = popped.1 }) popped.0
  some (k', record state { current_tid = none; queue = popped.2 })

pub release : Kernel → RecursiveMutexState → Option (Kernel × RecursiveMutexState)
release k state =
    let state' = record state { count = sub64 state.count 1 } in
    let freed = free k state' in if state'.count == 0 then freed else some (k, state')
