-- ===== src/Scheduler/PerCoreScheduler/Arrive.antt =====
-- The end of a switch: the new current task, and what runs then.
use libhermit_mpk.Prelude.{
  ◌⊎◌, ℕ, ◌<◌, ◌≡◌, ◌≢◌, refl, sym, ap, ◌∙◌, subst, true, [], ◌==◌, arith, Bool-cases, inl, inr,
}
use libhermit_mpk.Scheduler.Task.{TaskStatus, status_eq, Tasks}
use libhermit_mpk.Scheduler.PriorityTaskQueue.{PriorityTaskQueue}
use libhermit_mpk.Scheduler.PriorityTaskQueue.Chain.{has}
use libhermit_mpk.Scheduler.PriorityTaskQueue.Queues.{Queues, IsQueues}
use libhermit_mpk.Scheduler.Kernel.{PerCoreScheduler, set_ready_queue}
use libhermit_mpk.Scheduler.PerCoreScheduler.{set_halted, run, switch_to}
use libhermit_mpk.Scheduler.PerCoreScheduler.Scheduled.{
  IsCore, Runs, running, idling, Scheduled, set_status-IsQueues,
}

module _ (ts : Tasks) (s : PerCoreScheduler) (lists : Queues) (v : IsCore ts s lists) where
  abbrev cur : ℕ
  cur = s.current_task

  pub keeps-Scheduled :
      (q : PriorityTaskQueue)
      → (ts cur).status ≡ TaskStatus.running
      → ((j : ℕ) → (ts cur).prio < j → lists j ≡ [])
      → IsQueues ts q lists
      → Scheduled ts s lists ts (set_ready_queue s q)
  keeps-Scheduled q e above w = record {
    lists' = lists;
    queues = w;
    runs = running e above;
    kept = λ j a m ne. m;
    requeued = λ _ ne. absurd (ne refl);
  }

  pub halts-Scheduled :
      (q : PriorityTaskQueue)
      → (ts cur).status ≡ TaskStatus.idle
      → ((j : ℕ) → lists j ≡ [])
      → IsQueues ts q lists
      → Scheduled ts s lists ts (set_halted (set_ready_queue s q) true)
  halts-Scheduled q e all w = record {
    lists' = lists;
    queues = w;
    runs = idling e all;
    kept = λ j a m ne. m;
    requeued = λ _ ne. absurd (ne refl);
  }

  -- The new current task, if the identifiers of tasks are kept.
  switched_task :
      (us : Tasks) (s1 : PerCoreScheduler) (t now : ℕ)
      → s1.current_task ≡ cur
      → ((a : ℕ) → (us a).id ≡ (ts a).id)
      → ((switch_to us s1 t now).0.current_task ≡ t) × ((switch_to us s1 t now).0.state ≡ s1.state)
  switched_task us s1 t now own ids = elim (Bool-cases ((us s1.current_task).id == (us t).id)) [
    | inr other ↦ rw other (refl, refl)
    | inl same ↦
        let one : t ≡ cur =
          v.ids t (sym (ids t) ∙ sym (eq same) ∙ ids s1.current_task ∙ ap (λ c. (ts c).id) own) in
        rw same (own ∙ sym one, refl)
  ]
    where
      eq : {a b : ℕ} → (a == b) ≡ true → a ≡ b
      eq {a} {b} e = ground arith

  run-status :
      (us : Tasks) (t : ℕ)
      → (us t).status ≡ TaskStatus.ready
      → (run us t t).status ≡ TaskStatus.running
  run-status us t e = rw e (ground arith)

  run-IsQueues :
      (us : Tasks) (q : PriorityTaskQueue) (ls : Queues) (t : ℕ)
      → IsQueues us q ls
      → IsQueues (run us t) q ls
  run-IsQueues us q ls t w = elim (Bool-cases (status_eq (us t).status TaskStatus.idle)) [
    | inl e ↦ rw e w
    | inr e ↦ rw e (set_status-IsQueues us q ls t TaskStatus.running w)
  ]

  build :
      (us : Tasks) (s' : PerCoreScheduler) (t : ℕ) (q : PriorityTaskQueue) (ls : Queues)
      → s'.current_task ≡ t
      → s'.state.ready_queue ≡ q
      → IsQueues us q ls
      → Runs us t ls
      → ((j a : ℕ) → has a (lists j) ≡ true → a ≢ t → has a (ls j) ≡ true)
      → ((ts cur).status ≡ TaskStatus.running → t ≢ cur → has cur (ls (ts cur).prio) ≡ true)
      → Scheduled ts s lists us s'
  build us s' t q ls c st w r kept requeued = record {
    lists' = ls;
    queues = subst (λ x. IsQueues us x ls) (sym st) w;
    runs = subst (λ x. Runs us x ls) (sym c) r;
    kept = λ j a m ne. kept j a m (λ e. ne (e ∙ sym c));
    requeued = λ e ne. requeued e (λ x. ne (c ∙ x));
  }

  -- The task to switch to: ready, and no other one above it, or idle, and none ready at all.
  abbrev pub Target : Tasks → ℕ → Queues → Type 0
  Target us t ls =
      (((us t).status ≡ TaskStatus.ready) × ((j : ℕ) → (us t).prio < j → ls j ≡ []))
      ⊎ (((us t).status ≡ TaskStatus.idle) × ((j : ℕ) → ls j ≡ []))

  pub Target-same :
      (us vs : Tasks) (t : ℕ) (ls : Queues) → vs t ≡ us t → Target us t ls → Target vs t ls
  Target-same us vs t ls e (inl (r, above)) =
      inl (ap (λ x. x.status) e ∙ r, λ j lt. above j (subst (λ x. x.prio < j) e lt))
  Target-same us vs t ls e (inr (r, all)) = inr (ap (λ x. x.status) e ∙ r, all)

  run-Runs : (us : Tasks) (t : ℕ) (ls : Queues) → Target us t ls → Runs (run us t) t ls
  run-Runs us t ls (inl (e, above)) =
      running (run-status us t e) (λ j lt. above j (subst (λ p. p < j) prio_lem lt))
    where
      prio_lem : (run us t t).prio ≡ (us t).prio
      prio_lem = rw e (ground arith)
  run-Runs us t ls (inr (e, all)) = rw e (idling e all)

  pub arrive :
      (us : Tasks) (s1 : PerCoreScheduler) (t now : ℕ) (ls : Queues)
      → s1.current_task ≡ cur
      → ((a : ℕ) → (us a).id ≡ (ts a).id)
      → IsQueues us s1.state.ready_queue ls
      → Target us t ls
      → ((j a : ℕ) → has a (lists j) ≡ true → a ≢ t → has a (ls j) ≡ true)
      → ((ts cur).status ≡ TaskStatus.running → t ≢ cur → has cur (ls (ts cur).prio) ≡ true)
      → Scheduled ts s lists (run us t) (switch_to us s1 t now).0
  arrive us s1 t now ls own ids w target kept requeued =
      let sw = switched_task us s1 t now own ids in
      build (run us t) (switch_to us s1 t now).0 t s1.state.ready_queue ls sw.0
        (ap (λ x. x.ready_queue) sw.1) (run-IsQueues us s1.state.ready_queue ls t w)
        (run-Runs us t ls target) kept requeued
