-- ===== src/Scheduler/BlockedTaskQueue/Elapsed.antt =====
-- The timer interrupt wakes exactly the tasks whose time has come.
use libhermit_mpk.Prelude.{
  ℕ, ◌≡◌, refl, sym, ap, ◌∙◌, Bool, true, false, not, ◌||◌, ◌&&◌, Option, none, some, List, [], ◌∷◌,
  leb, ◌==◌, if◌then◌else◌, arith, Bool-cases, inl, inr,
}
use libhermit_mpk.Scheduler.Task.{TaskStatus, WakeupReason, BlockedTask}
use libhermit_mpk.Scheduler.Kernel.{Kernel, set_oneshot_timer}
use libhermit_mpk.Scheduler.BlockedTaskQueue.{wakeup_task, waits_longer, handle_waiting_tasks}
use libhermit_mpk.Scheduler.BlockedTaskQueue.Wakes.{
  SameState, Wakes, wakeup_task-Wakes, member, AllBlocked, distinct, AllBlocked-rest, woken_kernel,
}

-- The entries of a list in the order of their times; an entry without a time waits for ever.
abbrev pub not_later : Option ℕ → Option ℕ → Bool
not_later a none = true
not_later none (some y) = false
not_later (some x) (some y) = leb x y

abbrev pub sorted_from : Option ℕ → List BlockedTask → Bool
sorted_from bound [] = true
sorted_from bound (node ∷ rest) =
    not_later bound node.wakeup_time && sorted_from node.wakeup_time rest

-- The entries that still wait at a time, and the tasks of those that do not.
abbrev pub waiting : ℕ → List BlockedTask → List BlockedTask
waiting time [] = []
waiting time (node ∷ rest) =
    if waits_longer time node.wakeup_time then node ∷ waiting time rest else waiting time rest

abbrev pub due : ℕ → ℕ → List BlockedTask → Bool
due time a [] = false
due time a (node ∷ rest) =
    ((node.task == a) && not (waits_longer time node.wakeup_time)) || due time a rest

abbrev pub next_timer : Option ℕ → List BlockedTask → Option ℕ
next_timer old [] = old
next_timer old (node ∷ rest) = node.wakeup_time

-- The tasks that are due are ready because of the timer, the others as they were and in the list,
-- and the timer of this core is set for the first of them.
pub record Handled (time : ℕ) (k : Kernel) (list : List BlockedTask) (k' : Kernel)
    (rest : List BlockedTask) : Type 0 where
  pub rest_waits : rest ≡ waiting time list
  pub woken :
      (a : ℕ)
      → due time a list ≡ true
      → ((k'.tasks a).status ≡ TaskStatus.ready)
        × ((k'.tasks a).last_wakeup_reason ≡ WakeupReason.timer)
  pub others : (a : ℕ) → due time a list ≡ false → SameState (k.tasks a) (k'.tasks a)
  pub timer : k'.oneshot k.here ≡ next_timer (k.oneshot k.here) rest

abbrev pub Handles : ℕ → Kernel → List BlockedTask → Option (Kernel × List BlockedTask) → Type 0
Handles time k list none = ⊥
Handles time k list (some (k', rest)) = Handled time k list k' rest

pub waits-not_later :
    (time : ℕ) (a b : Option ℕ)
    → waits_longer time a ≡ true
    → not_later a b ≡ true
    → waits_longer time b ≡ true
waits-not_later time a none w n = refl
waits-not_later time none (some y) w n = absurd (ground arith)
waits-not_later time (some x) (some y) w n = ground arith

-- Behind an entry that waits longer all entries do.
waiting-sorted :
    (time : ℕ) (bound : Option ℕ) (list : List BlockedTask)
    → waits_longer time bound ≡ true
    → sorted_from bound list ≡ true
    → waiting time list ≡ list
waiting-sorted time bound [] w s = refl
waiting-sorted time bound (node ∷ rest) w s =
    let later : waits_longer time node.wakeup_time ≡ true =
      waits-not_later time bound node.wakeup_time w (ground arith) in
    rw later (ap (λ r. node ∷ r) (waiting-sorted time node.wakeup_time rest later (ground arith)))

due-sorted :
    (time a : ℕ) (bound : Option ℕ) (list : List BlockedTask)
    → waits_longer time bound ≡ true
    → sorted_from bound list ≡ true
    → due time a list ≡ false
due-sorted time a bound [] w s = refl
due-sorted time a bound (node ∷ rest) w s =
    let later : waits_longer time node.wakeup_time ≡ true =
      waits-not_later time bound node.wakeup_time w (ground arith) in
    ground (arith, due-sorted time a node.wakeup_time rest later)

due-member : (time a : ℕ) (list : List BlockedTask) → due time a list ≡ true → member a list ≡ true
due-member time a (node ∷ rest) d = ground (arith, due-member time a rest)
due-member time a [] d = absurd (ground arith)

module _ (time : ℕ) (k : Kernel) (node : BlockedTask) (rest : List BlockedTask) where
  -- The first task still waits.
  stops :
      sorted_from node.wakeup_time rest ≡ true
      → waits_longer time node.wakeup_time ≡ true
      → Handled time k (node ∷ rest) (set_oneshot_timer k node.wakeup_time) (node ∷ rest)
  stops s w = record {
    rest_waits = rw w (ap (λ r. node ∷ r) (sym (waiting-sorted time node.wakeup_time rest w s)));
    woken = λ a d. absurd (ground (arith, due-sorted time a node.wakeup_time rest w s));
    others = λ a d. (refl, refl);
    timer = ground arith;
  }

  -- The first task is woken, and the rest is handled after it.
  goes_on :
      (k' k'' : Kernel) (rest' : List BlockedTask)
      → waits_longer time node.wakeup_time ≡ false
      → member node.task rest ≡ false
      → Wakes k node.task WakeupReason.timer k'
      → Handled time k' rest k'' rest'
      → Handled time k (node ∷ rest) k'' rest'
  goes_on k' k'' rest' w out v h = record {
    rest_waits = rw w h.rest_waits;
    woken = λ a d. elim (Bool-cases (due time a rest)) [
      | inl later ↦ h.woken a later
      | inr first ↦
          let same : a ≡ node.task = ground arith in
          let o = h.others a first in
          (
            o.0 ∙ ap (λ x. (k'.tasks x).status) same ∙ v.ready,
            o.1 ∙ ap (λ x. (k'.tasks x).last_wakeup_reason) same ∙ v.reason,
          )
    ];
    others = λ a d.
        let o = v.others a (ground arith) in
        let o' = h.others a (ground arith) in (o'.0 ∙ o.0, o'.1 ∙ o.1);
    timer = rw (sym v.here, sym v.timer) h.timer;
  }

  goes_on_reply :
      (k' : Kernel) (r : Option (Kernel × List BlockedTask))
      → waits_longer time node.wakeup_time ≡ false
      → member node.task rest ≡ false
      → Wakes k node.task WakeupReason.timer k'
      → Handles time k' rest r
      → Handles time k (node ∷ rest) r
  goes_on_reply k' none w out v h = h
  goes_on_reply k' (some (k'', rest')) w out v h = goes_on k' k'' rest' w out v h

-- Called on a list of distinct blocked tasks in the order of their wakeup times, it never panics.
-- Exactly the tasks whose time has come are made ready, for the reason `timer`, and leave the
-- list; all other tasks keep their status. The timer of this core is set for the first task that
-- is left, and not touched if none is.
pub handle_waiting_tasks-Handles :
    (time : ℕ) (k : Kernel) (list : List BlockedTask) (bound : Option ℕ)
    → AllBlocked k list
    → distinct list ≡ true
    → sorted_from bound list ≡ true
    → Handles time k list (handle_waiting_tasks time k list)
unfolding handle_waiting_tasks
handle_waiting_tasks-Handles time k [] bound all d s = record {
  rest_waits = refl;
  woken = λ a e. absurd (ground arith);
  others = λ a e. (refl, refl);
  timer = refl;
}
handle_waiting_tasks-Handles time k (node ∷ rest) bound all d s =
    elim (Bool-cases (waits_longer time node.wakeup_time)) [
      | inl w ↦ rw w (stops time k node rest (ground arith) w)
      | inr w ↦
          let (k', e, v) =
            woken_kernel k node.task WakeupReason.timer (wakeup_task k node.task WakeupReason.timer)
              (wakeup_task-Wakes k node.task WakeupReason.timer (all node.task (ground arith))) in
          rw (w, e)
            (goes_on_reply time k node rest k' (handle_waiting_tasks time k' rest) w (ground arith)
              v
              (handle_waiting_tasks-Handles time k' rest node.wakeup_time
                (AllBlocked-rest k k' node rest WakeupReason.timer all d v) (ground arith)
                (ground arith)))
    ]
