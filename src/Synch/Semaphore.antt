-- ===== src/Synch/Semaphore.antt =====
-- src/synch/semaphore.rs. The state is held by a spinlock in each step; `acquire` is a loop of rounds
-- between which the task may be switched away. The count is an `isize` in two's complement.
pub mod Links
pub mod Rounds
mod Tests
use libhermit_mpk.Prelude.{
  ℕ, ◌+◌, ◌-◌, ◌^◌, Bool, true, false, ◌&&◌, Option, none, some, List, ltb, ◌==◌, if◌then◌else◌,
  add64, sub64, ◌>>=◌,
}
use libhermit_mpk.Scheduler.Task.{WakeupReason, Task, Tasks, update}
use libhermit_mpk.Scheduler.PriorityTaskQueue.{PriorityTaskQueue}
use libhermit_mpk.Scheduler.PriorityTaskQueue as queue
use libhermit_mpk.Scheduler.BlockedTaskQueue as blocked_queue
use libhermit_mpk.Scheduler.Kernel.{Kernel, PerCoreScheduler, set_scheduler}

pub record SemaphoreState : Type 0 where
  pub count : ℕ
  pub queue : PriorityTaskQueue

-- `Semaphore::new`.
unfoldable pub new : ℕ → SemaphoreState
new count = record { count = count; queue = queue.new }

abbrev pub is_positive : ℕ → Bool
is_positive count = ltb 0 count && ltb count (2 ^ 63)

abbrev pub is_timer : WakeupReason → Bool
is_timer WakeupReason.timer = true
is_timer WakeupReason.custom = false
is_timer WakeupReason.all = false

-- What a round of `acquire` ends with: `true`, `false`, or a switch to the next task.
pub data Round : Type 0 where
  acquired timed_out waits : Round

-- A task is blocked on its core, and queued at the semaphore.
abbrev pub wait :
    Kernel
    → ℕ
    → PerCoreScheduler
    → SemaphoreState
    → Option ℕ
    → Option (Round × Kernel × SemaphoreState)
wait k c s state wakeup_time = do
  added ← blocked_queue.add k s.blocked_tasks s.current_task wakeup_time
  pushed ← queue.push added.0.tasks state.queue s.current_task
  some (
    Round.waits,
    record (set_scheduler added.0 c (record s { blocked_tasks = added.1 })) { tasks = pushed.0 },
    record state { queue = pushed.1 },
  )

-- The removal of the current task from the queue, when its time has come.
abbrev pub give_up :
    ℕ → Kernel → PerCoreScheduler → SemaphoreState → Option (Round × Kernel × SemaphoreState)
give_up fuel k s state = do
  removed ← queue.remove fuel k.tasks state.queue s.current_task
  some (Round.timed_out, record k { tasks = removed.0 }, record state { queue = removed.1 })

-- A round of the loop of `acquire`, on core `c`.
pub acquire_round :
    ℕ → Kernel → ℕ → SemaphoreState → Option ℕ → Option (Round × Kernel × SemaphoreState)
acquire_round fuel k c state wakeup_time = do
  s ← k.schedulers c
  (if is_positive state.count
      then some (Round.acquired, k, record state { count = sub64 state.count 1 })
      else if is_timer (k.tasks s.current_task).last_wakeup_reason
      then give_up fuel k s state
      else wait k c s state wakeup_time)

-- The reset of the wakeup reason of the running task, at the start of `acquire`.
abbrev pub reset_reason : Kernel → ℕ → Kernel
reset_reason k task = record k {
  tasks = update k.tasks task (record (k.tasks task) { last_wakeup_reason = WakeupReason.custom });
}

-- `acquire` up to the end of its first round; the others are `acquire_round`.
unfoldable pub acquire :
    ℕ → Kernel → ℕ → SemaphoreState → Option ℕ → Option (Round × Kernel × SemaphoreState)
acquire fuel k c state wakeup_time = do
  s ← k.schedulers c
  acquire_round fuel (reset_reason k s.current_task) c state wakeup_time

-- `try_acquire`.
unfoldable pub try_acquire : SemaphoreState → Bool × SemaphoreState
try_acquire state =
    if is_positive state.count
    then (true, record state { count = sub64 state.count 1 })
    else (false, state)

-- The task that was popped is woken through the queue of its core.
abbrev pub wake_popped : Kernel → Option ℕ → Option Kernel
wake_popped k none = some k
wake_popped k (some task) = do
  s ← k.schedulers (k.tasks task).core_id
  r ← blocked_queue.custom_wakeup k s.blocked_tasks task
  s' ← r.0.schedulers (k.tasks task).core_id
  some (set_scheduler r.0 (k.tasks task).core_id (record s' { blocked_tasks = r.1 }))

-- `release`.
pub release : Kernel → SemaphoreState → Option (Kernel × SemaphoreState)
release k state = do
  popped ← queue.pop k.tasks state.queue
  k' ← wake_popped (record k { tasks = popped.1 }) popped.0
  some (k', record { count = add64 state.count 1; queue = popped.2 })
