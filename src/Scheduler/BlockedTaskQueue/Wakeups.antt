-- ===== src/Scheduler/BlockedTaskQueue/Wakeups.antt =====
-- `custom_wakeup` and `wakeup_all`.
use libhermit_mpk.Prelude.{
  ℕ, ◌≡◌, ◌≢◌, refl, ap, ◌∙◌, Bool, true, false, ◌&&◌, Option, none, some, List, [], ◌∷◌, ◌==◌,
  if◌then◌else◌, arith, Bool-cases, inl, inr,
}
use libhermit_mpk.Scheduler.Task.{TaskStatus, WakeupReason, BlockedTask, update}
use libhermit_mpk.Scheduler.Kernel.{Kernel}
use libhermit_mpk.Scheduler.BlockedTaskQueue.{
  wakeup_task, custom_wakeup, custom_wakeup_from, next_oneshot, keep, wakeup_all,
}
use libhermit_mpk.Scheduler.BlockedTaskQueue.Wakes.{
  IsBlocked, SameState, Wakes, wakeup_task-Wakes, woken_kernel, member, AllBlocked, distinct,
  AllBlocked-rest,
}

-- The list without the entry of a task, and the timer if that entry was the first.
abbrev pub without : ℕ → List BlockedTask → List BlockedTask
without task [] = []
without task (node ∷ rest) = if node.task == task then rest else node ∷ without task rest

abbrev pub timer_after : Bool → Option ℕ → List BlockedTask → ℕ → Option ℕ
timer_after first old [] task = old
timer_after first old (node ∷ []) task = old
timer_after first old (node ∷ next ∷ rest) task =
    if first && (node.task == task) then next.wakeup_time else old

pub record CustomWoken (first : Bool) (k : Kernel) (list : List BlockedTask) (task : ℕ)
    (k' : Kernel) (list' : List BlockedTask) : Type 0 where
  pub ready : (k'.tasks task).status ≡ TaskStatus.ready
  pub reason : (k'.tasks task).last_wakeup_reason ≡ WakeupReason.custom
  pub others : (a : ℕ) → a ≢ task → SameState (k.tasks a) (k'.tasks a)
  pub rest : list' ≡ without task list
  pub timer : k'.oneshot k.here ≡ timer_after first (k.oneshot k.here) list task

abbrev pub CustomWakes :
    Bool → Kernel → List BlockedTask → ℕ → Option (Kernel × List BlockedTask) → Type 0
CustomWakes first k list task none = ⊥
CustomWakes first k list task (some (k', list')) = CustomWoken first k list task k' list'

timer_lem :
    (k k' : Kernel) (first : Bool) (node : BlockedTask) (rest : List BlockedTask) (task : ℕ)
    → k'.here ≡ k.here
    → k'.oneshot ≡ k.oneshot
    → (node.task == task) ≡ true
    → next_oneshot k' first rest k.here ≡ timer_after first (k.oneshot k.here) (node ∷ rest) task
timer_lem k k' true node [] task here timer own = ap (λ f. f k.here) timer
timer_lem k k' true node (next ∷ rest) task here timer own = rw (own, here) (own_timer k.here)
  where
    own_timer : (h : ℕ) → update k'.oneshot h next.wakeup_time h ≡ next.wakeup_time
    own_timer h = ground arith
timer_lem k k' false node [] task here timer own = ap (λ f. f k.here) timer
timer_lem k k' false node (next ∷ rest) task here timer own = ap (λ f. f k.here) timer

timer_later :
    (first : Bool) (old : Option ℕ) (node : BlockedTask) (rest : List BlockedTask) (task : ℕ)
    → (node.task == task) ≡ false
    → timer_after false old rest task ≡ timer_after first old (node ∷ rest) task
timer_later first old node [] task ne = refl
timer_later first old node (next ∷ []) task ne = ground arith
timer_later first old node (next ∷ next' ∷ rest) task ne = ground arith

keep-CustomWakes :
    (first : Bool) (k : Kernel) (node : BlockedTask) (rest : List BlockedTask) (task : ℕ)
    (r : Option (Kernel × List BlockedTask))
    → (node.task == task) ≡ false
    → CustomWakes false k rest task r
    → CustomWakes first k (node ∷ rest) task (keep node r)
keep-CustomWakes first k node rest task none ne c = c
keep-CustomWakes first k node rest task (some (k', list')) ne c = record {
  ready = c.ready;
  reason = c.reason;
  others = c.others;
  rest = rw ne (ap (λ r. node ∷ r) c.rest);
  timer = c.timer ∙ timer_later first (k.oneshot k.here) node rest task ne;
}

custom_wakeup_from-CustomWakes :
    (first : Bool) (k : Kernel) (list : List BlockedTask) (task : ℕ)
    → IsBlocked k task
    → member task list ≡ true
    → CustomWakes first k list task (custom_wakeup_from first k list task)
unfolding custom_wakeup_from
custom_wakeup_from-CustomWakes first k [] task b m = absurd (ground arith)
custom_wakeup_from-CustomWakes first k (node ∷ rest) task b m =
    elim (Bool-cases (node.task == task)) [
      | inl same ↦
          let (k', e, w) =
            woken_kernel k task WakeupReason.custom (wakeup_task k task WakeupReason.custom)
              (wakeup_task-Wakes k task WakeupReason.custom b) in
          let own : node.task ≡ task = ground arith in
          rw (same, e)
            (record {
              ready = w.ready;
              reason = w.reason;
              others = w.others;
              rest = rw same refl;
              timer = timer_lem k k' first node rest task w.here w.timer same;
            })
      | inr other ↦ rw other (
          keep-CustomWakes first k node rest task (custom_wakeup_from false k rest task) other
            (custom_wakeup_from-CustomWakes false k rest task b (ground arith)))
    ]

-- A task of the list that can be woken is made ready, for the reason `custom`, and its entry leaves
-- the list; no other task changes its status. If it was the first, the timer of the core that runs
-- is set for the next one, if there is one, and it is not touched otherwise.
pub custom_wakeup-CustomWakes :
    (k : Kernel) (list : List BlockedTask) (task : ℕ)
    → IsBlocked k task
    → member task list ≡ true
    → CustomWakes true k list task (custom_wakeup k list task)
unfolding custom_wakeup
custom_wakeup-CustomWakes k list task b m = custom_wakeup_from-CustomWakes true k list task b m

-- All tasks of the list are ready, the others as they were, and the list is empty.
pub record AllWoken (k : Kernel) (list : List BlockedTask) (k' : Kernel) (list' : List BlockedTask)
    : Type 0 where
  pub woken :
      (a : ℕ)
      → member a list ≡ true
      → ((k'.tasks a).status ≡ TaskStatus.ready)
        × ((k'.tasks a).last_wakeup_reason ≡ WakeupReason.all)
  pub others : (a : ℕ) → member a list ≡ false → SameState (k.tasks a) (k'.tasks a)
  pub timer : k'.oneshot ≡ k.oneshot
  pub table : k'.table ≡ k.table
  pub rest : list' ≡ []

abbrev pub WakesAll : Kernel → List BlockedTask → Option (Kernel × List BlockedTask) → Type 0
WakesAll k list none = ⊥
WakesAll k list (some (k', list')) = AllWoken k list k' list'

wakeup_all_step :
    (k k' : Kernel) (node : BlockedTask) (rest : List BlockedTask)
    (r : Option (Kernel × List BlockedTask))
    → member node.task rest ≡ false
    → Wakes k node.task WakeupReason.all k'
    → WakesAll k' rest r
    → WakesAll k (node ∷ rest) r
wakeup_all_step k k' node rest none out w h = h
wakeup_all_step k k' node rest (some (k'', list')) out w h = record {
  woken = λ a m. elim (Bool-cases (member a rest)) [
    | inl later ↦ h.woken a later
    | inr first ↦
        let same : a ≡ node.task = ground arith in
        let o = h.others a first in
        (
          o.0 ∙ ap (λ x. (k'.tasks x).status) same ∙ w.ready,
          o.1 ∙ ap (λ x. (k'.tasks x).last_wakeup_reason) same ∙ w.reason,
        )
  ];
  others = λ a m.
      let o = w.others a (ground arith) in
      let o' = h.others a (ground arith) in (o'.0 ∙ o.0, o'.1 ∙ o.1);
  timer = h.timer ∙ w.timer;
  table = h.table ∙ w.table;
  rest = h.rest;
}

-- Every task of a list of distinct blocked tasks is made ready, for the reason `all`; no other
-- task changes its status, the list is empty afterwards and no timer is set.
pub wakeup_all-WakesAll :
    (k : Kernel) (list : List BlockedTask)
    → AllBlocked k list
    → distinct list ≡ true
    → WakesAll k list (wakeup_all k list)
unfolding wakeup_all
wakeup_all-WakesAll k [] all d = record {
  woken = λ a m. absurd (ground arith);
  others = λ a m. (refl, refl);
  timer = refl;
  table = refl;
  rest = refl;
}
wakeup_all-WakesAll k (node ∷ rest) all d =
    let (k', e, w) =
      woken_kernel k node.task WakeupReason.all (wakeup_task k node.task WakeupReason.all)
        (wakeup_task-Wakes k node.task WakeupReason.all (all node.task (ground arith))) in
    rw e (
      wakeup_all_step k k' node rest (wakeup_all k' rest) (ground arith) w (
        wakeup_all-WakesAll k' rest (AllBlocked-rest k k' node rest WakeupReason.all all d w)
          (ground arith)))
