-- ===== src/Scheduler/Kernel.antt =====
-- The state that the scheduler works on: the static variables and `PerCoreScheduler` of
-- src/scheduler/mod.rs, and of each core what its timer and its FPU hold.
-- A lock is held by the operation that takes it; what several cores do at once is not modelled.
use libhermit_mpk.Prelude.{ℕ, Bool, Option, some, List, ◌∷◌, ◌==◌, if◌then◌else◌}
use libhermit_mpk.Scheduler.Task.{BlockedTask, Tasks, update}
use libhermit_mpk.Scheduler.PriorityTaskQueue.{PriorityTaskQueue}

pub record SchedulerState : Type 0 where
  pub ready_queue : PriorityTaskQueue
  pub is_halted : Bool

pub record PerCoreScheduler : Type 0 where
  pub core_id : ℕ
  pub current_task : ℕ
  pub idle_task : ℕ
  pub fpu_owner : ℕ
  pub state : SchedulerState
  pub finished_tasks : List ℕ
  pub blocked_tasks : List BlockedTask
  pub last_task_switch_tick : ℕ

-- `here` is the core that runs, `oneshot` the time that each core's timer was last set to, and
-- `interrupts` the cores that were sent the wakeup interrupt, the last one first.
pub record Kernel : Type 0 where
  pub tasks : Tasks
  pub table : ℕ → Option ℕ
  pub schedulers : ℕ → Option PerCoreScheduler
  pub next_core_id : ℕ
  pub no_tasks : ℕ
  pub tid_counter : ℕ
  pub here : ℕ
  pub oneshot : ℕ → Option ℕ
  pub fpu : ℕ → ℕ
  pub interrupts : List ℕ

-- `arch::set_oneshot_timer`: the timer is that of the core that runs.
abbrev pub set_oneshot_timer : Kernel → Option ℕ → Kernel
set_oneshot_timer k wakeup_time = record k { oneshot = update k.oneshot k.here wakeup_time }

-- `arch::wakeup_core`.
abbrev pub wakeup_core : Kernel → ℕ → Kernel
wakeup_core k core = record k {
  interrupts = if core == k.here then k.interrupts else core ∷ k.interrupts;
}

abbrev pub set_scheduler : Kernel → ℕ → PerCoreScheduler → Kernel
set_scheduler k core s = record k { schedulers = update k.schedulers core (some s) }

abbrev pub set_ready_queue : PerCoreScheduler → PriorityTaskQueue → PerCoreScheduler
set_ready_queue s q = record s { state = record s.state { ready_queue = q } }
