-- ===== src/Scheduler/PerCoreScheduler/Cleanup.antt =====
-- The cleanup of a finished task wakes the tasks that joined it.
use libhermit_mpk.Prelude.{
  ℕ, ◌≡◌, ◌∙◌, true, false, Option, none, some, List, [], ◌∷◌, arith, ◌>>=◌,
}
use libhermit_mpk.Scheduler.Task.{TaskStatus, WakeupReason, BlockedTask, Tasks, update}
use libhermit_mpk.Scheduler.BlockedTaskQueue as blocked_queue
use libhermit_mpk.Scheduler.BlockedTaskQueue.Wakes.{SameState, member, AllBlocked, distinct}
use libhermit_mpk.Scheduler.BlockedTaskQueue.Wakeups.{WakesAll, wakeup_all-WakesAll}
use libhermit_mpk.Scheduler.Kernel.{Kernel, PerCoreScheduler, set_scheduler}
use libhermit_mpk.Scheduler.PerCoreScheduler.{remove_entry, cleanup_tasks}

-- The identifier is free, every task that waited is ready, and none waits any more; no other task
-- has changed its status.
pub record Cleaned (k : Kernel) (id t : ℕ) (k' : Kernel) : Type 0 where
  pub table : k'.table ≡ remove_entry k.table id
  pub woken :
      (a : ℕ)
      → member a (k.tasks t).wakeup ≡ true
      → ((k'.tasks a).status ≡ TaskStatus.ready)
        × ((k'.tasks a).last_wakeup_reason ≡ WakeupReason.all)
  pub others : (a : ℕ) → member a (k.tasks t).wakeup ≡ false → SameState (k.tasks a) (k'.tasks a)
  pub none_waits : (k'.tasks t).wakeup ≡ []

abbrev pub Cleans : Kernel → ℕ → ℕ → Option Kernel → Type 0
Cleans k id t none = ⊥
Cleans k id t (some k') = Cleaned k id t k'

-- The list of a task is set.
abbrev set_wakeup : Tasks → ℕ → List BlockedTask → Tasks
set_wakeup ts t list = update ts t (record (ts t) { wakeup = list })

set_wakeup-SameState :
    (ts : Tasks) (t a : ℕ) (list : List BlockedTask) → SameState (ts a) (set_wakeup ts t list a)
set_wakeup-SameState ts t a list = (ground arith, ground arith)

module _ (k : Kernel) (c id t : ℕ) (s : PerCoreScheduler) (rest : List ℕ) where
  abbrev popped : Kernel
  popped = record (set_scheduler k c (record s { finished_tasks = rest })) {
    table = remove_entry k.table id;
  }

  abbrev waiters : List BlockedTask
  waiters = (k.tasks t).wakeup

  popped-AllBlocked : AllBlocked k waiters → AllBlocked popped waiters
  popped-AllBlocked all a m =
      let b = all a m in
      record { blocked = b.blocked; valid = b.valid; present = ground (arith, b.present) }

  woken_lem :
      (r : Option (Kernel × List BlockedTask))
      → WakesAll popped waiters r
      → Cleans k id t (r >>= λ x. some (record (x.0) { tasks = set_wakeup x.0.tasks t x.1 }))
  woken_lem none h = h
  woken_lem (some (k', list')) h = record {
    table = h.table;
    woken = λ a m.
        let w = h.woken a m in
        let o = set_wakeup-SameState k'.tasks t a list' in (o.0 ∙ w.0, o.1 ∙ w.1);
    others = λ a m.
        let w = h.others a m in
        let o = set_wakeup-SameState k'.tasks t a list' in (o.0 ∙ w.0, o.1 ∙ w.1);
    none_waits = ground (arith, h.rest);
  }

-- `cleanup_tasks` takes the first finished task of the core off the table of tasks, and makes every
-- task that waited for it ready, for the reason `all`. It does not panic if those are distinct
-- blocked tasks.
pub cleanup_tasks-Cleans :
    (k : Kernel) (c id t : ℕ) (s : PerCoreScheduler) (rest : List ℕ)
    → k.schedulers c ≡ some s
    → s.finished_tasks ≡ id ∷ rest
    → k.table id ≡ some t
    → AllBlocked k (k.tasks t).wakeup
    → distinct (k.tasks t).wakeup ≡ true
    → Cleans k id t (cleanup_tasks k c)
unfolding cleanup_tasks
cleanup_tasks-Cleans k c id t s rest own first entry all d =
    rw (own, first, entry)
      (woken_lem k c id t s rest
        (blocked_queue.wakeup_all (popped k c id t s rest) (k.tasks t).wakeup)
        (wakeup_all-WakesAll (popped k c id t s rest) (k.tasks t).wakeup
          (popped-AllBlocked k c id t s rest all) d))
