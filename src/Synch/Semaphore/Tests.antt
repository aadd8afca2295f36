-- ===== src/Synch/Semaphore/Tests.antt =====
-- The semaphore at concrete inputs: tasks 1 and 2 of priority 3 wait, task 3 runs.
use native.Mathlib.Decide.{ℕ_discrete}
use libhermit_mpk.Prelude.TestBit.{zero-bit}
use libhermit_mpk.Scheduler.PriorityTaskQueue.Chain.{Chain}
use libhermit_mpk.Scheduler.PriorityTaskQueue.Laws.{==_ne}
use libhermit_mpk.Prelude.{ℕ, ◌≡◌, refl, subst, none, some, [], ◌∷◌, arith}
use libhermit_mpk.Scheduler.Task.{TaskStatus, Tasks, update, set_links, set_next}
use libhermit_mpk.Scheduler.Task as task
use libhermit_mpk.Scheduler.PriorityTaskQueue.{PriorityTaskQueue}
use libhermit_mpk.Scheduler.PriorityTaskQueue as queue
use libhermit_mpk.Scheduler.PriorityTaskQueue.Queues.{Queues, IsQueues, new-IsQueues, Marks-set}
use libhermit_mpk.Scheduler.Kernel.{Kernel}
use libhermit_mpk.Scheduler.Sample.{core_zero, small_kernel}
use libhermit_mpk.Synch.Semaphore.{SemaphoreState, acquire_round}
use libhermit_mpk.Synch.Semaphore.Rounds.{Rounds, acquire_round-Rounds}
use libhermit_mpk.Synch.Semaphore.Links.{time_out_release, time_out-waiters_lost}

abbrev fresh : Tasks
fresh a = task.new a 0 TaskStatus.blocked 3

abbrev waiting : Tasks
waiting = set_links (set_next (set_links fresh 1 none none) 1 (some 2)) 2 none (some 1)

abbrev two_waiters : PriorityTaskQueue
two_waiters = record {
  heads = update (λ i. none) 3 (some 1);
  tails = update (λ i. none) 3 (some 2);
  prio_bitmap = 8;
}

abbrev lists : Queues
lists = update (λ i. []) 3 (1 ∷ 2 ∷ [])

two_waiters-IsQueues : IsQueues waiting two_waiters lists
two_waiters-IsQueues = record {
  chains = λ i. elim (ℕ_discrete 3 i) [
    | yes e ↦
        subst (λ (j : ℕ). Chain waiting none (two_waiters.heads j) (two_waiters.tails j) (lists j))
          e (refl, refl, refl, (refl, refl, refl, (refl, refl)))
    | no ne ↦ rw (==_ne 3 i ne) (refl, refl)
  ];
  marks =
      Marks-set 0 3 (λ i. []) 1 (2 ∷ []) (omega arith)
        (record { word = omega arith; bits = λ i lt. zero-bit i });
  prios = λ i a m. ground arith;
  in_range = λ i ge. ground arith;
}

time_out-waiters_lost_example :
    time_out_release waiting two_waiters queue.new 1 ≡ some (some 1, none)
time_out-waiters_lost_example =
    time_out-waiters_lost waiting two_waiters queue.new lists 3 1 2 [] two_waiters-IsQueues refl
      (λ j lt. ground arith)

abbrev kernel : Kernel
kernel = small_kernel TaskStatus.running

abbrev none_free : SemaphoreState
none_free = record { count = 0; queue = queue.new }

acquire_round-Rounds_example :
    Rounds kernel 0 core_zero none_free
      (λ i. [])
      (some 30)
      (acquire_round 5 kernel 0 none_free (some 30))
acquire_round-Rounds_example =
    acquire_round-Rounds 5 kernel 0 core_zero none_free (λ i. []) (some 30) refl
      (new-IsQueues kernel.tasks) refl (omega arith) refl refl refl
