-- ===== src/Scheduler/Lifecycle/Tests.antt =====
-- New tasks and the FPU at concrete inputs.
use libhermit_mpk.Prelude.{ℕ, ◌≡◌, refl, Option, none, some, [], ◌==◌, if◌then◌else◌, arith}
use libhermit_mpk.Scheduler.Task.{TaskStatus}
use libhermit_mpk.Scheduler.PriorityTaskQueue.Queues.{new-IsQueues}
use libhermit_mpk.Scheduler.Kernel.{Kernel}
use libhermit_mpk.Scheduler.Sample.{core_zero, small_kernel}
use libhermit_mpk.Scheduler.Lifecycle.{get_tid, spawn}
use libhermit_mpk.Scheduler.Lifecycle.Ids.{Fresh, get_tid-Fresh}
use libhermit_mpk.Scheduler.Lifecycle.Spawns.{Spawns, spawn-Spawns}

-- Only the identifiers 4 and 5 are in use.
abbrev two_used : ℕ → Option ℕ
two_used id = if id == 4 then some 4 else if id == 5 then some 5 else none

abbrev kernel : Kernel
kernel = small_kernel TaskStatus.running

get_tid_test : get_tid 3 two_used 4 ≡ some (6, 7)
unfolding get_tid
get_tid_test = refl

get_tid-Fresh_example : Fresh two_used (get_tid 3 two_used 4)
get_tid-Fresh_example = get_tid-Fresh 2 two_used 4 (omega arith) refl

spawn-Spawns_example : Spawns kernel 0 9 2 (λ j. []) (spawn 1 kernel 0 9 2)
spawn-Spawns_example =
    spawn-Spawns 0 kernel 0 9 2 (λ j. []) core_zero (omega arith) refl refl
      (new-IsQueues kernel.tasks) (omega arith) (λ j. refl)
