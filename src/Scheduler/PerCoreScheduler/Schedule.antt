-- ===== src/Scheduler/PerCoreScheduler/Schedule.antt =====
-- The switch to the chosen task: the core runs a task of the highest priority, and none is lost.
use libhermit_mpk.Prelude.{
  ◌⊎◌, ℕ, ◌≤◌, ◌<◌, ◌≡◌, ◌≢◌, refl, sym, ap, ◌∙◌, subst, true, false, Option, none, some, List, [],
  ◌∷◌, ◌++◌, arith, ◌>>=◌, Bool-cases, inl, inr,
}
use libhermit_mpk.Scheduler.Task.{
  TaskStatus, status_eq, status_eq-true, status_eq-false, status_eq-ne, Tasks, update,
}
use libhermit_mpk.Scheduler.PriorityTaskQueue.{PriorityTaskQueue}
use libhermit_mpk.Scheduler.PriorityTaskQueue as queue
use libhermit_mpk.Scheduler.PriorityTaskQueue.Chain.{has}
use libhermit_mpk.Scheduler.PriorityTaskQueue.Queues.{Queues, IsQueues}
use libhermit_mpk.Scheduler.PriorityTaskQueue.Laws.{SameTasks, Pushes, push-Pushes}
use libhermit_mpk.Scheduler.Kernel.{PerCoreScheduler, set_ready_queue}
use libhermit_mpk.Scheduler.PerCoreScheduler.{
  finish_switch, Choice, Switched, choose, set_status, set_halted, leave_current, run, switch_to,
  switch, reschedule_core,
}
use libhermit_mpk.Scheduler.PerCoreScheduler.Choose.{
  Chosen, keeps, halts, idles, takes, choose-Chosen,
}
use libhermit_mpk.Scheduler.PerCoreScheduler.Scheduled.{
  IsCore, Scheduled, Schedules, set_status-IsQueues, snoc, has-snoc, has-snoc_self, has-uncons,
  has-uncons_out, set_status-other,
}
use libhermit_mpk.Scheduler.PerCoreScheduler.Arrive.{
  keeps-Scheduled, halts-Scheduled, Target, Target-same, arrive,
}

module _ (ts : Tasks) (s : PerCoreScheduler) (lists : Queues) (v : IsCore ts s lists) where
  abbrev cur : ℕ
  cur = s.current_task

  -- A current task that does not run leaves the queue as it is.
  leave-rests :
      (us : Tasks) (q : PriorityTaskQueue) (t now : ℕ) (ls : Queues)
      → SameTasks ts us
      → (ts cur).status ≢ TaskStatus.running
      → IsQueues us q ls
      → ((ts t).status ≡ TaskStatus.ready) ⊎ ((ts t).status ≡ TaskStatus.idle)
      → Target ts s lists v us t ls
      → ((j a : ℕ) → has a (lists j) ≡ true → a ≢ t → has a (ls j) ≡ true)
      → Schedules ts s lists (switch now s (some t, us, q))
  unfolding leave_current
  leave-rests us q t now ls same ne w kind target kept =
      elim (Bool-cases (status_eq (ts cur).status TaskStatus.finished)) [
        | inl e ↦
            rw (cur_lem, ne_lem, e)
              (arrive ts s lists v (set_status us cur TaskStatus.invalid)
                (record (set_ready_queue s q) {
                  finished_tasks = s.finished_tasks ++ (us cur).id ∷ [];
                })
                t now ls refl (λ a. ground arith ∙ ap (λ r. r.id) (same a))
                (set_status-IsQueues us q ls cur TaskStatus.invalid w)
                (Target-same ts s lists v us (set_status us cur TaskStatus.invalid) t ls
                  (other (status_eq-true (ts cur).status TaskStatus.finished e) kind) target)
                kept (λ x. absurd (ne x)))
        | inr e ↦
            rw (cur_lem, ne_lem, e)
              (arrive ts s lists v us (set_ready_queue s q) t now ls refl
                (λ a. ap (λ r. r.id) (same a)) w target kept (λ x. absurd (ne x)))
      ]
    where
      cur_lem : (us cur).status ≡ (ts cur).status
      cur_lem = ap (λ r. r.status) (same cur)

      ne_lem : status_eq (ts cur).status TaskStatus.running ≡ false
      ne_lem = status_eq-ne (ts cur).status TaskStatus.running ne

      other :
          (ts cur).status ≡ TaskStatus.finished
          → ((ts t).status ≡ TaskStatus.ready) ⊎ ((ts t).status ≡ TaskStatus.idle)
          → set_status us cur TaskStatus.invalid t ≡ us t
      other e (inl r) = set_status-other us cur t TaskStatus.invalid (λ x.
          status_eq-false TaskStatus.finished TaskStatus.ready refl
            (sym e ∙ ap (λ y. (ts y).status) (sym x) ∙ r))
      other e (inr r) = set_status-other us cur t TaskStatus.invalid (λ x.
          status_eq-false TaskStatus.finished TaskStatus.idle refl
            (sym e ∙ ap (λ y. (ts y).status) (sym x) ∙ r))

  -- The running task goes back to the queue.
  module _ (us : Tasks) (q : PriorityTaskQueue) (t now : ℕ) (ls : Queues) (same : SameTasks ts us)
      (e : (ts cur).status ≡ TaskStatus.running) (w : IsQueues us q ls)
      (r : (ts t).status ≡ TaskStatus.ready) (le : (ts cur).prio ≤ (ts t).prio)
      (above : (j : ℕ) → (ts t).prio < j → ls j ≡ []) (gone : has cur (ls (ts cur).prio) ≡ false)
      (kept : (j a : ℕ) → has a (lists j) ≡ true → a ≢ t → has a (ls j) ≡ true) where
    abbrev stopped : Tasks
    stopped = set_status us cur TaskStatus.ready

    prio-stopped : (stopped cur).prio ≡ (ts cur).prio
    prio-stopped = ground arith ∙ ap (λ x. x.prio) (same cur)

    t-stopped : stopped t ≡ us t
    t-stopped = set_status-other us cur t TaskStatus.ready (λ x.
        status_eq-false TaskStatus.running TaskStatus.ready refl
          (sym e ∙ ap (λ y. (ts y).status) (sym x) ∙ r))

    pushed-Scheduled :
        (vs : Tasks) (q' : PriorityTaskQueue) (p : ℕ)
        → p ≡ (ts cur).prio
        → IsQueues vs q' (snoc ls p cur)
        → SameTasks stopped vs
        → Scheduled ts s lists (run vs t) (switch_to vs (set_ready_queue s q') t now).0
    pushed-Scheduled vs q' p ep w' same' =
        arrive ts s lists v vs (set_ready_queue s q') t now (snoc ls p cur) refl ids-vs w'
          (inl (status-vs, λ j lt. empty_above j (subst (λ x. x < j) prio-vs lt)))
          (λ j a m ne. has-snoc ls p cur j a (kept j a m ne))
          (λ _ ne. subst (λ x. has cur (snoc ls p cur x) ≡ true) ep (has-snoc_self ls p cur))
      where
        ids-vs : (a : ℕ) → (vs a).id ≡ (ts a).id
        ids-vs a = ap (λ x. x.id) (same' a) ∙ ground arith ∙ ap (λ x. x.id) (same a)

        status-vs : (vs t).status ≡ TaskStatus.ready
        status-vs =
            ap (λ x. x.status) (same' t)
            ∙ ap (λ x. x.status) t-stopped
            ∙ ap (λ x. x.status) (same t)
            ∙ r

        prio-vs : (vs t).prio ≡ (ts t).prio
        prio-vs =
            ap (λ x. x.prio) (same' t) ∙ ap (λ x. x.prio) t-stopped ∙ ap (λ x. x.prio) (same t)

        empty_above : (j : ℕ) → (ts t).prio < j → snoc ls p cur j ≡ []
        empty_above j lt = ground (arith, above j)

    abbrev requeue : Tasks × PriorityTaskQueue → Tasks × PerCoreScheduler
    requeue (vs, q') = (vs, set_ready_queue s q')

    Pushes-Schedules :
        (r' : Option (Tasks × PriorityTaskQueue))
        → Pushes stopped ls cur r'
        → Schedules ts s lists
            ((r' >>= λ x. some (requeue x)) >>= λ left. some (finish_switch now t left))
    Pushes-Schedules none h = h
    Pushes-Schedules (some (vs, q')) h =
        pushed-Scheduled vs q' (stopped cur).prio prio-stopped h.0 h.1

    leave-pushes : Schedules ts s lists (switch now s (some t, us, q))
    unfolding leave_current
    leave-pushes =
        rw (ap (λ x. x.status) (same cur), e)
          (Pushes-Schedules (queue.push stopped q cur) (
            push-Pushes stopped q ls cur (set_status-IsQueues us q ls cur TaskStatus.ready w)
              (rw prio-stopped v.valid) (rw prio-stopped gone)))

  -- The target that the queue gave.
  takes-Schedules :
      (now i t : ℕ) (rest : List ℕ) (us : Tasks) (q : PriorityTaskQueue)
      → ((ts cur).status ≡ TaskStatus.running → (ts cur).prio ≤ i)
      → ((j : ℕ) → i < j → lists j ≡ [])
      → lists i ≡ t ∷ rest
      → IsQueues us q (update lists i rest)
      → SameTasks ts us
      → Schedules ts s lists (switch now s (some t, us, q))
  takes-Schedules now i t rest us q le above e w same =
      elim (Bool-cases (status_eq (ts cur).status TaskStatus.running)) [
        | inl run_lem ↦
            let r = status_eq-true (ts cur).status TaskStatus.running run_lem in
            leave-pushes us q t now (update lists i rest) same r w ready_lem
              (subst (λ x. (ts cur).prio ≤ x) (sym prio_lem) (le r))
              (λ j lt. rest_above j (subst (λ x. x < j) prio_lem lt))
              (has-uncons_out lists i t rest (ts cur).prio cur e v.out) kept_lem
        | inr rest_lem ↦
            leave-rests us q t now (update lists i rest) same
              (status_eq-false (ts cur).status TaskStatus.running rest_lem) w (inl ready_lem)
              (inl (
                ap (λ x. x.status) (same t) ∙ ready_lem,
                λ j lt. rest_above j (subst (λ x. x < j) (ap (λ x. x.prio) (same t) ∙ prio_lem) lt),
              ))
              kept_lem
      ]
    where
      member_lem : has t (lists i) ≡ true
      member_lem = ap (λ xs. has t xs) e ∙ ground arith

      ready_lem : (ts t).status ≡ TaskStatus.ready
      ready_lem = v.ready i t member_lem

      prio_lem : (ts t).prio ≡ i
      prio_lem = v.queues.prios i t member_lem

      rest_above : (j : ℕ) → i < j → update lists i rest j ≡ []
      rest_above j lt = ground (arith, above j lt)

      kept_lem : (j a : ℕ) → has a (lists j) ≡ true → a ≢ t → has a (update lists i rest j) ≡ true
      kept_lem j a m ne = has-uncons lists i t rest j a e m ne

-- The idle task is switched to only if no task is ready.
idles-Schedules :
    (ts : Tasks) (s : PerCoreScheduler) (lists : Queues) (now : ℕ) (q : PriorityTaskQueue)
    → IsCore ts s lists
    → (ts s.current_task).status ≢ TaskStatus.running
    → ((j : ℕ) → lists j ≡ [])
    → IsQueues ts q lists
    → Schedules ts s lists (switch now s (some s.idle_task, ts, q))
idles-Schedules ts s lists now q v ne all w =
    leave-rests ts s lists v ts q s.idle_task now lists (λ a. refl) ne w (inr v.idle)
      (inr (v.idle, all)) (λ j a m _. m)

switch-Schedules :
    (ts : Tasks) (s : PerCoreScheduler) (lists : Queues) (now : ℕ) (c : Option Choice)
    → IsCore ts s lists
    → Chosen ts s lists c
    → Schedules ts s lists (c >>= λ x. switch now s x)
switch-Schedules ts s lists now _ v (keeps q e above w) =
    rw e (keeps-Scheduled ts s lists v q e above w)
switch-Schedules ts s lists now _ v (halts q e all w) =
    rw e (halts-Scheduled ts s lists v q e all w)
switch-Schedules ts s lists now _ v (idles q ne ni all w) =
    idles-Schedules ts s lists now q v ne all w
switch-Schedules ts s lists now _ v (takes i t rest us q le above e w same) =
    takes-Schedules ts s lists v now i t rest us q le above e w same

-- Whether the core was halted before makes no difference.
awake :
    (ts : Tasks) (s : PerCoreScheduler) (lists : Queues) (r : Option Switched)
    → Schedules ts (set_halted s false) lists r
    → Schedules ts s lists r
awake ts s lists none h = h
awake ts s lists (some (us, s', to)) h = record {
  lists' = h.lists';
  queues = h.queues;
  runs = h.runs;
  kept = h.kept;
  requeued = h.requeued;
}

-- `scheduler` behind its cleanup never panics on a core whose state is in order. Afterwards the
-- core runs a task and no queued task has a higher priority, or the idle task and none is queued.
-- A queued task stays queued unless it is the one that runs now, and the task that ran is queued
-- again if another one takes its place. The queue stays in order.
pub reschedule_core-Schedules :
    (now switch_time : ℕ) (ts : Tasks) (s : PerCoreScheduler) (lists : Queues)
    → IsCore ts s lists
    → Schedules ts s lists (reschedule_core now switch_time ts s)
unfolding reschedule_core
reschedule_core-Schedules now switch_time ts s lists v =
    awake ts s lists
      (choose now ts (set_halted s false) >>= λ c. switch switch_time (set_halted s false) c)
      (switch-Schedules ts (set_halted s false) lists switch_time
        (choose now ts (set_halted s false))
        (record {
          queues = v.queues;
          ready = v.ready;
          idle = v.idle;
          valid = v.valid;
          ids = v.ids;
          out = v.out;
        })
        (choose-Chosen now ts (set_halted s false) lists v.queues v.valid))
