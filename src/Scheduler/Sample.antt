-- ===== src/Scheduler/Sample.antt =====
-- A small kernel for the tests: one core whose idle task is task 0.
use libhermit_mpk.Prelude.{true, none, some, []}
use libhermit_mpk.Scheduler.Task.{TaskStatus, BlockedTask, Tasks, update}
use libhermit_mpk.Scheduler.Task as task
use libhermit_mpk.Scheduler.PriorityTaskQueue as queue
use libhermit_mpk.Scheduler.Kernel.{Kernel, PerCoreScheduler}

-- Every task has priority 2 and the given status.
abbrev pub all_tasks : TaskStatus → Tasks
all_tasks status a = task.new a 0 status 2

abbrev pub core_zero : PerCoreScheduler
core_zero = record {
  core_id = 0;
  current_task = 3;
  idle_task = 0;
  fpu_owner = 0;
  state = record { ready_queue = queue.new; is_halted = true };
  finished_tasks = [];
  blocked_tasks = [];
  last_task_switch_tick = 0;
}

abbrev pub small_kernel : TaskStatus → Kernel
small_kernel status = record {
  tasks = all_tasks status;
  table = λ i. none;
  schedulers = update (λ c. none) 0 (some core_zero);
  next_core_id = 1;
  no_tasks = 2;
  tid_counter = 4;
  here = 0;
  oneshot = λ c. none;
  fpu = λ c. 0;
  interrupts = [];
}
