-- ===== src/Scheduler/Lifecycle/Spawns.antt =====
-- `spawn` makes a task that is ready on its core.
use libhermit_mpk.Prelude.{
  ℕ, suc, ◌+◌, ◌<◌, ◌%◌, ◌≡◌, refl, ap, ◌∙◌, subst, false, Option, none, some, [], ◌∷◌, ◌++◌, arith,
  u32_mod,
}
use libhermit_mpk.Scheduler.Task.{TaskStatus, Task, Tasks, no_priorities, update}
use libhermit_mpk.Scheduler.Task as task_block
use libhermit_mpk.Scheduler.PriorityTaskQueue.{PriorityTaskQueue}
use libhermit_mpk.Scheduler.PriorityTaskQueue as queue
use libhermit_mpk.Scheduler.PriorityTaskQueue.Chain.{has}
use libhermit_mpk.Scheduler.PriorityTaskQueue.Queues.{Queues, IsQueues, IsQueues-frame}
use libhermit_mpk.Scheduler.PriorityTaskQueue.Laws.{pushed, push-Pushes}
use libhermit_mpk.Scheduler.Kernel.{Kernel, PerCoreScheduler, set_ready_queue}
use libhermit_mpk.Scheduler.Lifecycle.{get_tid, spawn}
use libhermit_mpk.Scheduler.Lifecycle.Ids.{Fresh, get_tid-Fresh}

-- The new task is ready and the last of its priority in the queue of the core; its identifier was
-- free and now leads to it.
pub record Spawned (k : Kernel) (c task prio : ℕ) (lists : Queues) (k' : Kernel) (tid : ℕ)
    : Type 0 where
  pub free : k.table tid ≡ none
  pub entered : k'.table ≡ update k.table tid (some task)
  pub status : (k'.tasks task).status ≡ TaskStatus.ready
  pub id : (k'.tasks task).id ≡ tid
  pub count : k'.no_tasks ≡ (k.no_tasks + 1) % u32_mod
  pub scheduler :
      (s : PerCoreScheduler) × (k'.schedulers c ≡ some s)
      × IsQueues k'.tasks s.state.ready_queue (update lists prio (lists prio ++ task ∷ []))

abbrev pub Spawns : Kernel → ℕ → ℕ → ℕ → Queues → Option (Kernel × ℕ) → Type 0
Spawns k c task prio lists none = ⊥
Spawns k c task prio lists (some (k', tid)) = Spawned k c task prio lists k' tid

module _ (k : Kernel) (c task prio : ℕ) (lists : Queues) (s : PerCoreScheduler)
    (own : k.schedulers c ≡ some s) (v : IsQueues k.tasks s.state.ready_queue lists)
    (lt : prio < no_priorities) (out : (j : ℕ) → has task (lists j) ≡ false) where
  abbrev block : ℕ → Task
  block tid = task_block.new tid s.core_id TaskStatus.ready prio

  abbrev stored : ℕ → Tasks
  stored tid = update k.tasks task (block tid)

  own_block : (tid : ℕ) → stored tid task ≡ block tid
  own_block tid = ground arith

  stored-IsQueues : (tid : ℕ) → IsQueues (stored tid) s.state.ready_queue lists
  stored-IsQueues tid =
      IsQueues-frame k.tasks (stored tid) s.state.ready_queue lists (λ i a m. ground (arith, out i))
        v

  enlisted :
      (fuel tid counter : ℕ)
      → k.table tid ≡ none
      → get_tid fuel k.table k.tid_counter ≡ some (tid, counter)
      → Spawns k c task prio lists (spawn fuel k c task prio)
  unfolding spawn
  enlisted fuel tid counter free e =
      let (us, q, pe, w, same) =
        pushed (stored tid) lists task (queue.push (stored tid) s.state.ready_queue task) (
          push-Pushes (stored tid) s.state.ready_queue lists task (stored-IsQueues tid)
            (rw (own_block tid) lt) (rw (own_block tid) (out prio))) in
      rw (e, own, pe)
        (record {
          free = free;
          entered = refl;
          status = ap (λ x. x.status) (same task) ∙ ap (λ x. x.status) (own_block tid);
          id = ap (λ x. x.id) (same task) ∙ ap (λ x. x.id) (own_block tid);
          count = refl;
          scheduler = (
            set_ready_queue s q,
            ground arith,
            subst (λ i. IsQueues us q (update lists i (lists i ++ task ∷ [])))
                (ap (λ x. x.prio) (own_block tid)) w,
          );
        })

-- The identifier and the counter that were found.
found :
    (table : ℕ → Option ℕ) (r : Option (ℕ × ℕ))
    → Fresh table r
    → (id : ℕ) × (counter : ℕ) × (r ≡ some (id, counter)) × (table id ≡ none)
found table none f = absurd f
found table (some (id, counter)) f = (id, counter, refl, f.0)

-- For a priority below 31, on a core that is there and whose ready queue is in order and does not hold
-- the new task: if the identifier `d` places behind the counter is unused, `spawn` makes a ready task
-- under an identifier that no task has, as the last of its priority in the core's ready queue, which
-- stays in order, and counts it.
pub spawn-Spawns :
    (d : ℕ) (k : Kernel) (c task prio : ℕ) (lists : Queues) (s : PerCoreScheduler)
    → k.tid_counter < u32_mod
    → k.table ((k.tid_counter + d) % u32_mod) ≡ none
    → k.schedulers c ≡ some s
    → IsQueues k.tasks s.state.ready_queue lists
    → prio < no_priorities
    → ((j : ℕ) → has task (lists j) ≡ false)
    → Spawns k c task prio lists (spawn (suc d) k c task prio)
spawn-Spawns d k c task prio lists s small unused own v lt out =
    let (tid, counter, e, free) =
      found k.table (get_tid (suc d) k.table k.tid_counter)
        (get_tid-Fresh d k.table k.tid_counter small unused) in
    enlisted k c task prio lists s own v lt out (suc d) tid counter free e
