-- ===== src/Scheduler/Task.antt =====
-- src/scheduler/task.rs: the task control block. A `Rc<RefCell<Task>>` is the number of a task in a
-- store, and `Rc::ptr_eq` compares numbers. Stacks are left out: nothing here reads them.
use libhermit_mpk.Prelude.{
  zero, suc, Bool-cases, inl, inr, true, false, ◌≡◌, ◌≢◌, refl, sym, ap, ◌∙◌, arith, ℕ, Bool,
  Option, none, List, [], ◌==◌, if◌then◌else◌,
}

pub data TaskStatus : Type 0 where
  invalid ready running blocked finished idle : TaskStatus

pub data WakeupReason : Type 0 where
  custom timer all : WakeupReason

abbrev status_code : TaskStatus → ℕ
status_code TaskStatus.invalid = 0
status_code TaskStatus.ready = 1
status_code TaskStatus.running = 2
status_code TaskStatus.blocked = 3
status_code TaskStatus.finished = 4
status_code TaskStatus.idle = 5

abbrev pub status_eq : TaskStatus → TaskStatus → Bool
status_eq a b = status_code a == status_code b

abbrev status_of : ℕ → TaskStatus
status_of zero = TaskStatus.invalid
status_of (suc zero) = TaskStatus.ready
status_of (suc (suc zero)) = TaskStatus.running
status_of (suc (suc (suc zero))) = TaskStatus.blocked
status_of (suc (suc (suc (suc zero)))) = TaskStatus.finished
status_of n = TaskStatus.idle

status_of-status_code : (a : TaskStatus) → status_of (status_code a) ≡ a
status_of-status_code TaskStatus.invalid = refl
status_of-status_code TaskStatus.ready = refl
status_of-status_code TaskStatus.running = refl
status_of-status_code TaskStatus.blocked = refl
status_of-status_code TaskStatus.finished = refl
status_of-status_code TaskStatus.idle = refl

-- The test on statuses decides equality.
pub status_eq-true : (a b : TaskStatus) → status_eq a b ≡ true → a ≡ b
status_eq-true a b e =
    let same : status_code a ≡ status_code b = ground arith in
    sym (status_of-status_code a) ∙ ap status_of same ∙ status_of-status_code b

pub status_eq-false : (a b : TaskStatus) → status_eq a b ≡ false → a ≢ b
status_eq-false a b e same = ground (arith, ap status_code same)

pub status_eq-ne : (a b : TaskStatus) → a ≢ b → status_eq a b ≡ false
status_eq-ne a b ne = elim (Bool-cases (status_eq a b)) [
  | inl e ↦ absurd (ne (status_eq-true a b e))
  | inr e ↦ e
]

abbrev pub idle_prio : ℕ
idle_prio = 0

abbrev pub no_priorities : ℕ
no_priorities = 31

pub record BlockedTask : Type 0 where
  pub task : ℕ
  pub wakeup_time : Option ℕ

pub record Task : Type 0 where
  pub id : ℕ
  pub status : TaskStatus
  pub prio : ℕ  -- u8
  pub last_stack_pointer : ℕ
  pub last_fpu_state : ℕ
  pub core_id : ℕ
  pub next : Option ℕ
  pub prev : Option ℕ
  pub wakeup : List BlockedTask
  pub tls : Option ℕ
  pub last_wakeup_reason : WakeupReason

-- `Task::new`; 0 stands for the initial FPU state.
abbrev pub new : ℕ → ℕ → TaskStatus → ℕ → Task
new tid core_id task_status task_prio = record {
  id = tid;
  status = task_status;
  prio = task_prio;
  last_stack_pointer = 0;
  last_fpu_state = 0;
  core_id = core_id;
  next = none;
  prev = none;
  wakeup = [];
  tls = none;
  last_wakeup_reason = WakeupReason.custom;
}

-- `Task::new_idle`.
abbrev pub new_idle : ℕ → ℕ → Task
new_idle tid core_id = new tid core_id TaskStatus.idle idle_prio

-- `Task::clone`.
abbrev pub clone : ℕ → ℕ → Task → Task
clone tid core_id task = record (new tid core_id TaskStatus.ready task.prio) {
  tls = task.tls;
  last_wakeup_reason = task.last_wakeup_reason;
}

-- The store of the live tasks.
abbrev pub Tasks : Type 0
Tasks = ℕ → Task

abbrev pub update {ℓ} : {A : Type ℓ} → (ℕ → A) → ℕ → A → ℕ → A
update f i a j = if i == j then a else f j

abbrev pub set_next : Tasks → ℕ → Option ℕ → Tasks
set_next ts t n = update ts t (record (ts t) { next = n })

abbrev pub set_prev : Tasks → ℕ → Option ℕ → Tasks
set_prev ts t p = update ts t (record (ts t) { prev = p })

abbrev pub set_links : Tasks → ℕ → Option ℕ → Option ℕ → Tasks
set_links ts t n p = update ts t (record (ts t) { next = n; prev = p })
