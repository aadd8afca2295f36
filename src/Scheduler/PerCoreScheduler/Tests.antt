-- ===== src/Scheduler/PerCoreScheduler/Tests.antt =====
-- A core at concrete inputs: task 3 runs, task 0 is the idle task, task 2 has ended and task 4
-- waits for it.
use libhermit_mpk.Scheduler.BlockedTaskQueue.Wakes.{IsBlocked, member}
use libhermit_mpk.Prelude.{subst, ◌∙◌, ℕ, ◌≡◌, refl, sym, true, none, some, [], ◌∷◌, arith}
use libhermit_mpk.Scheduler.Task.{TaskStatus, Tasks, update}
use libhermit_mpk.Scheduler.PriorityTaskQueue.Queues.{Queues, new-IsQueues}
use libhermit_mpk.Scheduler.BlockedTaskQueue.{blocked}
use libhermit_mpk.Scheduler.Kernel.{Kernel}
use libhermit_mpk.Scheduler.Sample.{all_tasks, core_zero, small_kernel}
use libhermit_mpk.Scheduler.PerCoreScheduler.{reschedule_core, cleanup_tasks}
use libhermit_mpk.Scheduler.PerCoreScheduler.Scheduled.{IsCore, Schedules}
use libhermit_mpk.Scheduler.PerCoreScheduler.Schedule.{reschedule_core-Schedules}
use libhermit_mpk.Scheduler.PerCoreScheduler.Cleanup.{Cleans, cleanup_tasks-Cleans}

abbrev tasks : Tasks
tasks = update (all_tasks TaskStatus.running) 0 (record (all_tasks TaskStatus.idle 0) { prio = 0 })

abbrev nothing_queued : Queues
nothing_queued j = []

tasks-id : (a : ℕ) → (tasks a).id ≡ a
tasks-id a = ground arith

core_zero-IsCore : IsCore tasks core_zero nothing_queued
core_zero-IsCore = record {
  queues = new-IsQueues tasks;
  ready = λ j a m. absurd (ground arith);
  idle = refl;
  valid = omega arith;
  ids = λ a e. sym (tasks-id a) ∙ e;
  out = refl;
}

reschedule_core-Schedules_example :
    Schedules tasks core_zero nothing_queued (reschedule_core 5 6 tasks core_zero)
reschedule_core-Schedules_example =
    reschedule_core-Schedules 5 6 tasks core_zero nothing_queued core_zero-IsCore

-- Task 4 waits for task 2, whose identifier is 2.
abbrev joined : Kernel
joined = record (small_kernel TaskStatus.blocked) {
  tasks =
      update (all_tasks TaskStatus.blocked) 2
        (record (all_tasks TaskStatus.invalid 2) { wakeup = blocked 4 none ∷ [] });
  table = update (λ id. none) 2 (some 2);
  schedulers = update (λ c. none) 0 (some (record core_zero { finished_tasks = 2 ∷ [] }));
}

only_blocked : (a : ℕ) → member a (blocked 4 none ∷ []) ≡ true → IsBlocked joined a
only_blocked a m =
    let e : 4 ≡ a = ground arith in
    subst (λ (x : ℕ). IsBlocked joined x) e
      (record { blocked = refl; valid = omega arith; present = refl })

cleanup_tasks-Cleans_example : Cleans joined 2 2 (cleanup_tasks joined 0)
cleanup_tasks-Cleans_example =
    cleanup_tasks-Cleans joined 0 2 2 (record core_zero { finished_tasks = 2 ∷ [] }) [] refl refl
      refl only_blocked refl
