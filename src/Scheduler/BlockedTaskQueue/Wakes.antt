-- ===== src/Scheduler/BlockedTaskQueue/Wakes.antt =====
-- What `wakeup_task` does to a blocked task, and what it leaves.
use libhermit_mpk.Scheduler.Task.{BlockedTask}
use libhermit_mpk.Prelude.{subst, ◌||◌, ◌&&◌, not}
use libhermit_mpk.Prelude.{
  ℕ, ◌<◌, ◌≡◌, ◌≢◌, refl, ap, ◌∙◌, Bool, true, false, Option, none, some, is_some, List, [], ◌∷◌,
  ◌==◌, arith, Option-cases, inl, inr,
}
use libhermit_mpk.Scheduler.Task.{TaskStatus, WakeupReason, Task, Tasks, no_priorities}
use libhermit_mpk.Scheduler.PriorityTaskQueue.{PriorityTaskQueue}
use libhermit_mpk.Scheduler.PriorityTaskQueue as queue
use libhermit_mpk.Scheduler.PriorityTaskQueue.Laws.{SameTasks, link_last-SameTasks, push-some}
use libhermit_mpk.Scheduler.Kernel.{Kernel, PerCoreScheduler, set_ready_queue, set_scheduler}
use libhermit_mpk.Scheduler.BlockedTaskQueue.{wakeup_task, set_ready, wakeup_if_halted}

-- A task that can be woken: blocked, on a core that is there, with a valid priority.
pub record IsBlocked (k : Kernel) (task : ℕ) : Type 0 where
  pub blocked : (k.tasks task).status ≡ TaskStatus.blocked
  pub valid : (k.tasks task).prio < no_priorities
  pub present : is_some (k.schedulers (k.tasks task).core_id) ≡ true

-- What stays the same of a task besides its links.
abbrev pub SameState : Task → Task → Type 0
SameState t u = (u.status ≡ t.status) × (u.last_wakeup_reason ≡ t.last_wakeup_reason)

-- The task is ready, for the given reason, and in the ready queue of its core; no other task has
-- changed but for its links.
pub record Wakes (k : Kernel) (task : ℕ) (cause : WakeupReason) (k' : Kernel) : Type 0 where
  pub ready : (k'.tasks task).status ≡ TaskStatus.ready
  pub reason : (k'.tasks task).last_wakeup_reason ≡ cause
  pub others : (a : ℕ) → a ≢ task → SameState (k.tasks a) (k'.tasks a)
  pub cores : (a : ℕ) → (k'.tasks a).core_id ≡ (k.tasks a).core_id
  pub prios : (a : ℕ) → (k'.tasks a).prio ≡ (k.tasks a).prio
  pub schedulers : (c : ℕ) → is_some (k'.schedulers c) ≡ is_some (k.schedulers c)
  pub queued :
      (s : PerCoreScheduler) × (q : PriorityTaskQueue) × (k.schedulers (k.tasks task).core_id
        ≡ some s)
      × (queue.push (set_ready k.tasks task cause) s.state.ready_queue task ≡ some (k'.tasks, q))
      × (k'.schedulers (k.tasks task).core_id ≡ some (set_ready_queue s q))
  pub timer : k'.oneshot ≡ k.oneshot
  pub here : k'.here ≡ k.here
  pub table : k'.table ≡ k.table

abbrev pub WakesUp : Kernel → ℕ → WakeupReason → Option Kernel → Type 0
WakesUp k task reason none = ⊥
WakesUp k task reason (some k') = Wakes k task reason k'

module _ (k : Kernel) (task : ℕ) (reason : WakeupReason) (s : PerCoreScheduler)
    (own : k.schedulers (k.tasks task).core_id ≡ some s) where
  abbrev core : ℕ
  core = (k.tasks task).core_id

  abbrev ts : Tasks
  ts = set_ready k.tasks task reason

  abbrev woken : Tasks → PriorityTaskQueue → Kernel
  woken us q =
      wakeup_if_halted (set_scheduler (record k { tasks = us }) core (set_ready_queue s q)) core
        s.state.is_halted

  woken-Wakes :
      (us : Tasks) (q : PriorityTaskQueue)
      → queue.push ts s.state.ready_queue task ≡ some (us, q)
      → SameTasks ts us
      → Wakes k task reason (woken us q)
  woken-Wakes us q e same = record {
    ready = ap (λ r. r.status) (same task) ∙ ground arith;
    reason = ap (λ r. r.last_wakeup_reason) (same task) ∙ ground arith;
    others = λ a ne. (
      ap (λ r. r.status) (same a) ∙ ground arith,
      ap (λ r. r.last_wakeup_reason) (same a) ∙ ground arith,
    );
    cores = λ a. ap (λ r. r.core_id) (same a) ∙ ground arith;
    prios = λ a. ap (λ r. r.prio) (same a) ∙ ground arith;
    schedulers = λ c. ground (arith, own);
    queued = (s, q, own, e, ground arith);
    timer = refl;
    here = refl;
    table = refl;
  }

-- A blocked task whose core is there becomes ready, for the given reason, and joins the ready
-- queue of its core; no other task changes but for its links.
pub wakeup_task-Wakes :
    (k : Kernel) (task : ℕ) (reason : WakeupReason)
    → IsBlocked k task
    → WakesUp k task reason (wakeup_task k task reason)
unfolding wakeup_task
wakeup_task-Wakes k task reason b = elim (Option-cases (k.schedulers (k.tasks task).core_id)) [
  | inl absent ↦ absurd (ground (arith, b.present))
  | inr (s, own) ↦
      let (q, e) =
        push-some (set_ready k.tasks task reason) s.state.ready_queue task
          (ground (arith, b.valid)) in
      rw (b.blocked, own, e) (woken-Wakes k task reason s own _ q e (link_last-SameTasks _ task _))
]

-- Waking a task leaves the other blocked tasks blocked.
pub Wakes-IsBlocked :
    (k k' : Kernel) (task a : ℕ) (reason : WakeupReason)
    → Wakes k task reason k'
    → a ≢ task
    → IsBlocked k a
    → IsBlocked k' a
Wakes-IsBlocked k k' task a reason w ne b = record {
  blocked = (w.others a ne).0 ∙ b.blocked;
  valid = rw (w.prios a) b.valid;
  present = rw (w.cores a) (w.schedulers (k.tasks a).core_id ∙ b.present);
}

-- The tasks of a list of blocked tasks.
abbrev pub member : ℕ → List BlockedTask → Bool
member a [] = false
member a (node ∷ rest) = (node.task == a) || member a rest

-- Every task of the list can be woken, and stands there once.
abbrev pub AllBlocked : Kernel → List BlockedTask → Type 0
AllBlocked k list = (a : ℕ) → member a list ≡ true → IsBlocked k a

abbrev pub distinct : List BlockedTask → Bool
distinct [] = true
distinct (node ∷ rest) = not (member node.task rest) && distinct rest

pub AllBlocked-rest :
    (k k' : Kernel) (node : BlockedTask) (rest : List BlockedTask) (reason : WakeupReason)
    → AllBlocked k (node ∷ rest)
    → distinct (node ∷ rest) ≡ true
    → Wakes k node.task reason k'
    → AllBlocked k' rest
AllBlocked-rest k k' node rest reason all d w a m =
    Wakes-IsBlocked k k' node.task a reason w
      (λ e. ground (arith, subst (λ (x : ℕ). member x rest ≡ true) e m)) (all a (ground arith))

-- The kernel after a task that can be woken was woken.
pub woken_kernel :
    (k : Kernel) (task : ℕ) (reason : WakeupReason) (r : Option Kernel)
    → WakesUp k task reason r
    → (k' : Kernel) × (r ≡ some k') × Wakes k task reason k'
woken_kernel k task reason none w = absurd w
woken_kernel k task reason (some k') w = (k', refl, w)
