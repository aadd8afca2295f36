-- ===== src/Scheduler/BlockedTaskQueue.antt =====
-- `BlockedTaskQueue` of src/scheduler/task.rs: the blocked tasks in the order of their wakeup
-- times. The iterator of the list is a node ahead, so removing a node does not stop it. A failed
-- assertion is `none`.
pub mod Wakes
pub mod Elapsed
pub mod Order
pub mod Wakeups
mod Tests
use libhermit_mpk.Prelude.{
  ℕ, Bool, true, false, Option, none, some, List, [], ◌∷◌, ltb, ◌==◌, if◌then◌else◌, ◌>>=◌,
}
use libhermit_mpk.Scheduler.Task.{
  TaskStatus, WakeupReason, status_eq, BlockedTask, Task, Tasks, update,
}
use libhermit_mpk.Scheduler.PriorityTaskQueue.{PriorityTaskQueue}
use libhermit_mpk.Scheduler.PriorityTaskQueue as queue
use libhermit_mpk.Scheduler.Kernel.{
  Kernel, PerCoreScheduler, SchedulerState, set_oneshot_timer, wakeup_core, set_scheduler,
  set_ready_queue,
}

abbrev pub blocked : ℕ → Option ℕ → BlockedTask
blocked task wakeup_time = record { task = task; wakeup_time = wakeup_time }

abbrev pub set_ready : Tasks → ℕ → WakeupReason → Tasks
set_ready ts task reason =
    update ts task (record (ts task) { status = TaskStatus.ready; last_wakeup_reason = reason })

abbrev pub wakeup_if_halted : Kernel → ℕ → Bool → Kernel
wakeup_if_halted k core is_halted = record k {
  interrupts = if is_halted then (wakeup_core k core).interrupts else k.interrupts;
}

-- A task that is ready joins the queue of its core, which is woken if it is halted.
abbrev pub make_ready : Kernel → ℕ → ℕ → Option Kernel
make_ready k task core = do
  s ← k.schedulers core
  pushed ← queue.push k.tasks s.state.ready_queue task
  some (
      wakeup_if_halted
        (set_scheduler (record k { tasks = pushed.0 }) core (set_ready_queue s pushed.1)) core
        s.state.is_halted)

pub wakeup_task : Kernel → ℕ → WakeupReason → Option Kernel
wakeup_task k task reason =
    if status_eq (k.tasks task).status TaskStatus.blocked
    then make_ready (record k { tasks = set_ready k.tasks task reason }) task (k.tasks task).core_id
    else none

-- Whether the timer is to be set, and the list with the new entry: before the first entry that
-- waits longer or for ever.
abbrev pub waits_longer : ℕ → Option ℕ → Bool
waits_longer wt none = true
waits_longer wt (some time) = ltb wt time

pub insert : Bool → BlockedTask → ℕ → List BlockedTask → Bool × List BlockedTask
insert first_task new wt [] = (first_task, new ∷ [])
insert first_task new wt (node ∷ rest) =
    let (first, rest') = insert false new wt rest in
    if waits_longer wt node.wakeup_time
    then (first_task, new ∷ node ∷ rest)
    else (first, node ∷ rest')

abbrev pub push_back : List BlockedTask → BlockedTask → List BlockedTask
push_back [] new = new ∷ []
push_back (node ∷ rest) new = node ∷ push_back rest new

abbrev pub set_if : Bool → Kernel → Option ℕ → Kernel
set_if first k time = record k {
  oneshot = if first then (set_oneshot_timer k time).oneshot else k.oneshot;
}

abbrev pub enter : Kernel → List BlockedTask → BlockedTask → Option ℕ → Kernel × List BlockedTask
enter k list new none = (k, push_back list new)
enter k list new (some wt) =
    let (first, list') = insert true new wt list in (set_if first k (some wt), list')

pub add : Kernel → List BlockedTask → ℕ → Option ℕ → Option (Kernel × List BlockedTask)
add k list task wakeup_time =
    let t = k.tasks task in
    let ts = update k.tasks task (record t { status = TaskStatus.blocked }) in
    if status_eq t.status TaskStatus.running
    then some (enter (record k { tasks = ts }) list (blocked task wakeup_time) wakeup_time)
    else none

pub wakeup_all : Kernel → List BlockedTask → Option (Kernel × List BlockedTask)
wakeup_all k [] = some (k, [])
wakeup_all k (node ∷ rest) = wakeup_task k node.task WakeupReason.all >>= λ k'. wakeup_all k' rest

-- The timer after the first task was taken out.
abbrev pub next_oneshot : Kernel → Bool → List BlockedTask → ℕ → Option ℕ
next_oneshot k true (node ∷ rest) = (set_oneshot_timer k node.wakeup_time).oneshot
next_oneshot k true [] = k.oneshot
next_oneshot k false list = k.oneshot

abbrev pub set_next_timer : Kernel → Bool → List BlockedTask → Kernel
set_next_timer k first_task rest = record k { oneshot = next_oneshot k first_task rest }

abbrev pub keep :
    BlockedTask → Option (Kernel × List BlockedTask) → Option (Kernel × List BlockedTask)
keep node none = none
keep node (some (k, rest)) = some (k, node ∷ rest)

pub custom_wakeup_from : Bool → Kernel → List BlockedTask → ℕ → Option (Kernel × List BlockedTask)
custom_wakeup_from first_task k [] task = some (k, [])
custom_wakeup_from first_task k (node ∷ rest) task =
    let later = custom_wakeup_from false k rest task in
    let woken = wakeup_task k task WakeupReason.custom in
    if node.task == task
    then (woken >>= λ k'. some (set_next_timer k' first_task rest, rest))
    else keep node later

pub custom_wakeup : Kernel → List BlockedTask → ℕ → Option (Kernel × List BlockedTask)
custom_wakeup k list task = custom_wakeup_from true k list task

-- `time` is `get_timer_ticks()`.
pub handle_waiting_tasks : ℕ → Kernel → List BlockedTask → Option (Kernel × List BlockedTask)
handle_waiting_tasks time k [] = some (k, [])
handle_waiting_tasks time k (node ∷ rest) =
    let woken = wakeup_task k node.task WakeupReason.timer in
    let later = woken >>= λ k'. handle_waiting_tasks time k' rest in
    if waits_longer time node.wakeup_time
    then some (set_oneshot_timer k node.wakeup_time, node ∷ rest)
    else later
