-- ===== src/Scheduler/PriorityTaskQueue/Tests.antt =====
-- The priority queue at concrete inputs: three tasks of priority 3.
use libhermit_mpk.Prelude.{subst, ◌≡◌, refl, none, some, [], ◌∷◌, arith, ◌>>=◌}
use libhermit_mpk.Scheduler.PriorityTaskQueue.{remove}
use libhermit_mpk.Scheduler.PriorityTaskQueue.Removal.{Removes, remove-Removes}
use libhermit_mpk.Scheduler.Task.{set_next, Task, Tasks, TaskStatus, update, set_links}
use libhermit_mpk.Prelude.TestBit.{bit}
use libhermit_mpk.Scheduler.Task as task
use libhermit_mpk.Scheduler.PriorityTaskQueue.{
  PriorityTaskQueue, new, msb, bsr, push, pop, pop_from_queue,
}
use libhermit_mpk.Scheduler.PriorityTaskQueue.Queues.{Queues, IsQueues, new-IsQueues}
use libhermit_mpk.Scheduler.PriorityTaskQueue.Laws.{Pushes, push-Pushes}
use libhermit_mpk.Scheduler.PriorityTaskQueue.Pops.{Popped, pop-Popped}
use libhermit_mpk.Scheduler.PriorityTaskQueue.Removes.{remove_push_pop, remove-push_lost}

abbrev tasks : Tasks
tasks a = task.new a 0 TaskStatus.ready 3

abbrev nothing_queued : Queues
nothing_queued i = []

abbrev one_queued : Queues
one_queued = update nothing_queued 3 (1 ∷ [])

abbrev one_task : PriorityTaskQueue
one_task = record {
  heads = update (λ i. none) 3 (some 1);
  tails = update (λ i. none) 3 (some 1);
  prio_bitmap = 8;
}

abbrev linked : Tasks
linked = set_links tasks 1 none none

push_one : push tasks new 1 ≡ some (linked, one_task)
unfolding push new
push_one = refl

one_task-IsQueues : IsQueues linked one_task one_queued
one_task-IsQueues =
    (subst (λ r. Pushes tasks nothing_queued 1 r) push_one
      (push-Pushes tasks new nothing_queued 1 (new-IsQueues tasks) (omega arith) refl)).0

-- The second task of a list is behind the first.
push_two : (push linked one_task 2 >>= λ p. pop p.0 p.1 >>= λ r. some r.0) ≡ some (some 1)
unfolding push pop pop_from_queue msb bsr bit
push_two = refl

push-Pushes_example : Pushes linked one_queued 2 (push linked one_task 2)
push-Pushes_example = push-Pushes linked one_task one_queued 2 one_task-IsQueues (omega arith) refl

pop-Popped_example : Popped linked one_queued 0 (pop linked one_task)
pop-Popped_example = pop-Popped linked one_task one_queued one_task-IsQueues

remove-push_lost_example : remove_push_pop 1 linked one_task 1 2 ≡ some none
remove-push_lost_example =
    remove-push_lost 0 linked one_task one_queued 1 2 one_task-IsQueues refl (λ j lt. ground arith)
      refl

abbrev two_tasks : PriorityTaskQueue
two_tasks = record one_task { tails = update (update (λ i. none) 3 (some 1)) 3 (some 2) }

abbrev linked_two : Tasks
linked_two = set_links (set_next linked 1 (some 2)) 2 none (some 1)

push_second : push linked one_task 2 ≡ some (linked_two, two_tasks)
unfolding push
push_second = refl

two_tasks-IsQueues : IsQueues linked_two two_tasks (update one_queued 3 (1 ∷ 2 ∷ []))
two_tasks-IsQueues =
    (subst (λ r. Pushes linked one_queued 2 r) push_second
      (push-Pushes linked one_task one_queued 2 one_task-IsQueues (omega arith) refl)).0

remove-Removes_example :
    Removes linked_two
      (update one_queued 3 (1 ∷ 2 ∷ []))
      1
      (2 ∷ [])
      (remove 1 linked_two two_tasks 1)
remove-Removes_example =
    remove-Removes 1 linked_two two_tasks (update one_queued 3 (1 ∷ 2 ∷ [])) 1 2 [] []
      two_tasks-IsQueues refl (omega arith)
