-- ===== src/Scheduler/BlockedTaskQueue/Tests.antt =====
-- The queue of blocked tasks at concrete inputs: two tasks that wait for times 10 and 20.
use libhermit_mpk.Prelude.{ℕ, ◌≡◌, refl, true, false, some, List, [], ◌∷◌, arith}
use libhermit_mpk.Scheduler.Task.{TaskStatus, BlockedTask}
use libhermit_mpk.Scheduler.Kernel.{Kernel}
use libhermit_mpk.Scheduler.Sample.{small_kernel}
use libhermit_mpk.Scheduler.BlockedTaskQueue.{
  blocked, add, insert, handle_waiting_tasks, custom_wakeup,
}
use libhermit_mpk.Scheduler.BlockedTaskQueue.Wakes.{IsBlocked}
use libhermit_mpk.Scheduler.BlockedTaskQueue.Elapsed.{Handles, handle_waiting_tasks-Handles}
use libhermit_mpk.Scheduler.BlockedTaskQueue.Order.{Adds, add-Adds}
use libhermit_mpk.Scheduler.BlockedTaskQueue.Wakeups.{CustomWakes, custom_wakeup-CustomWakes}

abbrev two_blocked : List BlockedTask
two_blocked = blocked 1 (some 10) ∷ blocked 2 (some 20) ∷ []

abbrev kernel : Kernel
kernel = small_kernel TaskStatus.blocked

every-IsBlocked : (a : ℕ) → IsBlocked kernel a
every-IsBlocked a = record { blocked = refl; valid = omega arith; present = refl }

insert_test :
    insert true (blocked 5 (some 10)) 10 two_blocked
    ≡ (false, blocked 1 (some 10) ∷ blocked 5 (some 10) ∷ blocked 2 (some 20) ∷ [])
unfolding insert
insert_test = refl

add-Adds_example :
    Adds
      (small_kernel TaskStatus.running)
      two_blocked
      5
      (some 7)
      (add (small_kernel TaskStatus.running) two_blocked 5 (some 7))
add-Adds_example = add-Adds (small_kernel TaskStatus.running) two_blocked 5 (some 7) refl refl

handle_waiting_tasks-Handles_example :
    Handles 15 kernel two_blocked (handle_waiting_tasks 15 kernel two_blocked)
handle_waiting_tasks-Handles_example =
    handle_waiting_tasks-Handles 15 kernel two_blocked (some 0) (λ a m. every-IsBlocked a) refl refl

custom_wakeup-CustomWakes_example :
    CustomWakes true kernel two_blocked 1 (custom_wakeup kernel two_blocked 1)
custom_wakeup-CustomWakes_example =
    custom_wakeup-CustomWakes kernel two_blocked 1 (every-IsBlocked 1) refl
