-- ===== src/Scheduler/Lifecycle.antt =====
-- src/scheduler/mod.rs: how tasks come to be and end, and the switch of the FPU. A new task gets the
-- number `task` in the store, an argument. A panic is `none`, as is a search that runs out of fuel.
pub mod Fpu
pub mod Ids
pub mod Spawns
mod Tests
use libhermit_mpk.Prelude.{
  ◌-◌, ℕ, zero, suc, ◌+◌, ◌%◌, Bool, true, false, Option, none, some, List, [], ◌∷◌, ◌==◌,
  if◌then◌else◌, u32_mod, ◌>>=◌, ◌&&◌, not, is_some,
}
use libhermit_mpk.Scheduler.Task.{TaskStatus, status_eq, Task, Tasks, BlockedTask, update}
use libhermit_mpk.Scheduler.Task as task_block
use libhermit_mpk.Scheduler.PriorityTaskQueue.{PriorityTaskQueue}
use libhermit_mpk.Scheduler.PriorityTaskQueue as queue
use libhermit_mpk.Scheduler.BlockedTaskQueue as blocked_queue
use libhermit_mpk.Scheduler.Kernel.{
  Kernel, PerCoreScheduler, SchedulerState, set_scheduler, set_ready_queue, wakeup_core,
}
use libhermit_mpk.Scheduler.PerCoreScheduler.{scheduler, set_status, insert_entry}

-- `get_tid`: the counter is a `u32` that wraps around. The result has the counter that is left.
pub get_tid : ℕ → (ℕ → Option ℕ) → ℕ → Option (ℕ × ℕ)
get_tid zero table counter = none
get_tid (suc fuel) table counter =
    let next = (counter + 1) % u32_mod in
    let later = get_tid fuel table next in
    if is_some (table counter) then later else some (counter, next)

-- A task that was made is queued on a core, and entered under its identifier.
abbrev pub enlist : Kernel → ℕ → PerCoreScheduler → ℕ → ℕ → Option Kernel
enlist k core s task tid = do
  pushed ← queue.push k.tasks s.state.ready_queue task
  some (record (set_scheduler k core (set_ready_queue s pushed.1)) {
    tasks = pushed.0;
    table = insert_entry k.table tid task;
    no_tasks = (k.no_tasks + 1) % u32_mod;
  })

-- The store with the new task.
abbrev pub create : Kernel → ℕ → ℕ → Task → Kernel
create k counter task block = record k { tid_counter = counter; tasks = update k.tasks task block }

-- `spawn`, on core `c`.
pub spawn : ℕ → Kernel → ℕ → ℕ → ℕ → Option (Kernel × ℕ)
spawn fuel k c task prio = do
  t ← get_tid fuel k.table k.tid_counter
  s ← k.schedulers c
  k' ← enlist (create k t.1 task (task_block.new t.0 s.core_id TaskStatus.ready prio)) c s task t.0
  some (wakeup_core k' s.core_id, t.0)

-- The core for the next clone, and the counter behind it.
abbrev pub next_core : ℕ → ℕ → ℕ × ℕ
next_core processor_count id = if id == processor_count then (0, 0) else (id, id + 1)

abbrev pub wake_halted : Kernel → ℕ → Bool → Kernel
wake_halted k core is_halted = record k {
  interrupts = if is_halted then (wakeup_core k core).interrupts else k.interrupts;
}

-- `PerCoreScheduler::clone`, on core `c`.
pub clone : ℕ → ℕ → Kernel → ℕ → ℕ → Option (Kernel × ℕ)
clone processor_count fuel k c task = do
  own ← k.schedulers c
  let core = next_core processor_count k.next_core_id
  s ← k.schedulers core.0
  t ← get_tid fuel k.table k.tid_counter
  let block = task_block.clone t.0 core.0 (k.tasks own.current_task)
  k' ← enlist (create (record k { next_core_id = core.1 }) t.1 task block) core.0 s task t.0
  some (wake_halted k' core.0 s.state.is_halted, t.0)

abbrev pub finish : Kernel → ℕ → Kernel
finish k task = record k {
  tasks = set_status k.tasks task TaskStatus.finished;
  no_tasks = (k.no_tasks + (u32_mod - 1)) % u32_mod;
}

-- `exit` up to the switch, which does not come back to a finished task.
pub exit : ℕ → ℕ → Kernel → ℕ → Option (Kernel × Option ℕ)
exit now switch_time k c = do
  s ← k.schedulers c
  (if status_eq (k.tasks s.current_task).status TaskStatus.idle
      then none
      else scheduler now switch_time (finish k s.current_task) c)

-- Whether the FPU state of the owner is worth saving.
abbrev pub lives : TaskStatus → Bool
lives status =
    not (status_eq status TaskStatus.invalid) && not (status_eq status TaskStatus.finished)

abbrev pub save_fpu : Tasks → ℕ → ℕ → Tasks
save_fpu ts owner registers =
    if lives (ts owner).status
    then update ts owner (record (ts owner) { last_fpu_state = registers })
    else ts

-- `fpu_switch` of a scheduler: the tasks, the scheduler and the FPU of its core.
pub fpu_switch : Tasks → PerCoreScheduler → ℕ → Tasks × PerCoreScheduler × ℕ
fpu_switch ts s registers = if s.current_task == s.fpu_owner then (ts, s, registers) else (
  save_fpu ts s.fpu_owner registers,
  record s { fpu_owner = s.current_task },
  (ts s.current_task).last_fpu_state,
)

-- `join`, on core `c`: `false` for a task that does not exist. A task that joins itself is borrowed
-- twice, which panics.
abbrev pub wait_for : ℕ → ℕ → Kernel → ℕ → Option ℕ → Option (Bool × Kernel)
wait_for now switch_time k c none = some (false, k)
wait_for now switch_time k c (some t) = do
  s ← k.schedulers c
  added ←
      (if t == s.current_task
        then none
        else blocked_queue.add k (k.tasks t).wakeup s.current_task none)
  let ts = added.0.tasks
  r ←
      scheduler now switch_time
        (record (added.0) { tasks = update ts t (record (ts t) { wakeup = added.1 }) }) c
  some (true, r.0)

pub join : ℕ → ℕ → Kernel → ℕ → ℕ → Option (Bool × Kernel)
join now switch_time k c id = wait_for now switch_time k c (k.table id)

-- `add_current_core`, on the core that runs.
pub add_current_core : ℕ → Kernel → ℕ → Option Kernel
add_current_core fuel k idle_task = do
  t ← get_tid fuel k.table k.tid_counter
  some (
      set_scheduler
        (record (create k t.1 idle_task (task_block.new_idle t.0 k.here)) {
          table = insert_entry k.table t.0 idle_task;
        })
        k.here
        (record {
          core_id = k.here;
          current_task = idle_task;
          idle_task = idle_task;
          fpu_owner = idle_task;
          state = record { ready_queue = queue.new; is_halted = false };
          finished_tasks = [];
          blocked_tasks = [];
          last_task_switch_tick = 0;
        }))
