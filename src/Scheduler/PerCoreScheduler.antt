-- ===== src/Scheduler/PerCoreScheduler.antt =====
-- `PerCoreScheduler` of src/scheduler/mod.rs. The object `self` of core `c` is its entry in the map
-- of schedulers. A new task gets the number `task` in the store, an argument; a panic is `none`.
pub mod Choose
pub mod Scheduled
pub mod Arrive
pub mod Schedule
pub mod Cleanup
mod Tests
use libhermit_mpk.Prelude.{
  ℕ, zero, suc, ◌+◌, ◌-◌, ◌%◌, Bool, true, false, not, ◌&&◌, ◌||◌, Option, none, some, is_some,
  List, [], ◌∷◌, ltb, ◌==◌, if◌then◌else◌, add64, u32_mod, ◌>>=◌, ◌++◌,
}
use libhermit_mpk.Scheduler.Task.{TaskStatus, status_eq, Task, Tasks, BlockedTask, update}
use libhermit_mpk.Scheduler.Task as task_block
use libhermit_mpk.Scheduler.PriorityTaskQueue.{PriorityTaskQueue}
use libhermit_mpk.Scheduler.PriorityTaskQueue as queue
use libhermit_mpk.Scheduler.BlockedTaskQueue as blocked_queue
use libhermit_mpk.Scheduler.Kernel.{
  Kernel, PerCoreScheduler, SchedulerState, set_scheduler, set_ready_queue, wakeup_core,
}

-- `TASK_TIME_SLICE`.
abbrev pub task_time_slice : ℕ
task_time_slice = 10000

abbrev pub set_status : Tasks → ℕ → TaskStatus → Tasks
set_status ts t status = update ts t (record (ts t) { status = status })

-- `BTreeMap::remove` and `insert`.
abbrev pub remove_entry : (ℕ → Option ℕ) → ℕ → ℕ → Option ℕ
remove_entry table id = update table id none

abbrev pub insert_entry : (ℕ → Option ℕ) → ℕ → ℕ → ℕ → Option ℕ
insert_entry table id task = update table id (some task)

-- The tasks that wait for a finished task are woken.
abbrev pub wake_waiters : Kernel → Option ℕ → Option Kernel
wake_waiters k none = some k
wake_waiters k (some t) = do
  r ← blocked_queue.wakeup_all k (k.tasks t).wakeup
  some (record (r.0) { tasks = update r.0.tasks t (record (r.0.tasks t) { wakeup = r.1 }) })

abbrev pub cleanup_first : Kernel → ℕ → PerCoreScheduler → List ℕ → Option Kernel
cleanup_first k c s [] = some k
cleanup_first k c s (id ∷ rest) =
    wake_waiters
      (record (set_scheduler k c (record s { finished_tasks = rest })) {
        table = remove_entry k.table id;
      })
      (k.table id)

pub cleanup_tasks : Kernel → ℕ → Option Kernel
cleanup_tasks k c = do s ← k.schedulers c; cleanup_first k c s s.finished_tasks

-- What a pop of the ready queue gave.
abbrev pub Choice : Type 0
Choice = Option ℕ × Tasks × PriorityTaskQueue

abbrev pub or_same_prio : Bool → ℕ → Choice → Option Choice
or_same_prio expired prio (some task, ts, q) = some (some task, ts, q)
or_same_prio expired prio (none, ts, q) =
    if expired then queue.pop_with_prio ts q prio else some (none, ts, q)

abbrev pub or_idle : Bool → ℕ → Choice → Choice
or_idle idle idle_task (some task, ts, q) = (some task, ts, q)
or_idle idle idle_task (none, ts, q) = if idle then (none, ts, q) else (some idle_task, ts, q)

-- The task to switch to. `now` is `get_timer_ticks()`; a priority is a byte.
pub choose : ℕ → Tasks → PerCoreScheduler → Option Choice
choose now ts s =
    let t = ts s.current_task in
    let q = s.state.ready_queue in
    let higher = queue.pop_with_prio ts q ((t.prio + 1) % 256) in
    let expired = ltb (add64 s.last_task_switch_tick task_time_slice) now in
    let any = queue.pop ts q in
    let idle = status_eq t.status TaskStatus.idle in
    if status_eq t.status TaskStatus.running
    then (higher >>= λ r. or_same_prio expired t.prio r)
    else any >>= λ r. some (or_idle idle s.idle_task r)

-- The current task gives up the core: a running one is queued again, a finished one is kept for
-- the next cleanup.
pub leave_current : Tasks → PerCoreScheduler → Option (Tasks × PerCoreScheduler)
leave_current ts s =
    let cur = s.current_task in
    let pushed = queue.push (set_status ts cur TaskStatus.ready) s.state.ready_queue cur in
    if status_eq (ts cur).status TaskStatus.running
    then (pushed >>= λ r. some (r.0, set_ready_queue s r.1))
    else if status_eq (ts cur).status TaskStatus.finished
    then some (
      set_status ts cur TaskStatus.invalid,
      record s { finished_tasks = s.finished_tasks ++ (ts cur).id ∷ [] },
    )
    else some (ts, s)

abbrev pub run : Tasks → ℕ → Tasks
run ts task =
    if status_eq (ts task).status TaskStatus.idle then ts else set_status ts task TaskStatus.running

-- The scheduler of the core after the switch, and the task whose context is restored.
abbrev pub switch_to : Tasks → PerCoreScheduler → ℕ → ℕ → PerCoreScheduler × Option ℕ
switch_to ts s task now =
    if (ts s.current_task).id == (ts task).id
    then (s, none)
    else (record s { current_task = task; last_task_switch_tick = now }, some task)

abbrev pub set_halted : PerCoreScheduler → Bool → PerCoreScheduler
set_halted s b = record s { state = record s.state { is_halted = b } }

abbrev pub Switched : Type 0
Switched = Tasks × PerCoreScheduler × Option ℕ

abbrev pub finish_switch : ℕ → ℕ → Tasks × PerCoreScheduler → Switched
finish_switch now task (ts, s) =
    let switched = switch_to ts s task now in (run ts task, switched.0, switched.1)

abbrev pub switch : ℕ → PerCoreScheduler → Choice → Option Switched
switch now s (none, ts, q) =
    let s' = set_ready_queue s q in
    some (
      ts,
      (if status_eq (ts s.current_task).status TaskStatus.idle then set_halted s' true else s'),
      none,
    )
switch now s (some task, ts, q) =
    leave_current ts (set_ready_queue s q) >>= λ left. some (finish_switch now task left)

-- The part of `scheduler` behind the cleanup, on the tasks and the scheduler of the core.
pub reschedule_core : ℕ → ℕ → Tasks → PerCoreScheduler → Option Switched
reschedule_core now switch_time ts s = do
  choice ← choose now ts (set_halted s false)
  switch switch_time (set_halted s false) choice

pub scheduler : ℕ → ℕ → Kernel → ℕ → Option (Kernel × Option ℕ)
scheduler now switch_time k c = do
  k' ← cleanup_tasks k c
  s ← k'.schedulers c
  r ← reschedule_core now switch_time k'.tasks s
  some (set_scheduler (record k' { tasks = r.0 }) c r.1, r.2)
