-- ===== src/Syscalls/CondVar.antt =====
-- src/syscalls/condvar.rs. The queue of a condition variable is boxed: `conds` holds it by its
-- address, and the word that `ptr` points to in `words` is that address, or 0. `none` is a panic.
use libhermit_mpk.Prelude.{
  ℕ, zero, suc, ◌/◌, ◌^◌, Bool, true, false, ◌||◌, Option, none, some, ltb, ◌==◌, if◌then◌else◌,
  ◌>>=◌,
}
use libhermit_mpk.Arch.Mpk.{neg}
use libhermit_mpk.Scheduler.Task.{update}
use libhermit_mpk.Scheduler.PriorityTaskQueue.{PriorityTaskQueue}
use libhermit_mpk.Scheduler.PriorityTaskQueue as queue
use libhermit_mpk.Scheduler.BlockedTaskQueue as blocked_queue
use libhermit_mpk.Scheduler.Kernel.{Kernel, set_scheduler}
use libhermit_mpk.Synch.Semaphore.{wake_popped}
use libhermit_mpk.Syscalls.{is_negative}

pub record CondQueue : Type 0 where
  pub queue : PriorityTaskQueue
  pub id : ℕ

-- `CondQueue::new`.
abbrev pub new : ℕ → CondQueue
new id = record { queue = queue.new; id = id }

pub record Conds : Type 0 where
  pub conds : ℕ → CondQueue
  pub words : ℕ → ℕ

-- `__sys_destroy_queue`: the box is dropped, and the word reset.
unfoldable pub destroy_queue : Conds → ℕ → ℕ × Conds
destroy_queue state ptr =
    if ptr == 0
    then (neg 1, state)
    else if state.words ptr == 0
    then (0, state)
    else (0, record state { words = update state.words ptr 0 })

-- The kernel and the queue after the oldest of the most urgent waiters was woken, if there is one,
-- and whether there was.
abbrev pub wake_one : Kernel → CondQueue → Option (Bool × Kernel × CondQueue)
wake_one k cond = do
  popped ← queue.pop k.tasks cond.queue
  k' ← wake_popped (record k { tasks = popped.1 }) popped.0
  some (elim popped.0 [ none ↦ false | some task ↦ true ], k', record cond { queue = popped.2 })

-- The loop over `count`, which goes on when no task is left.
unfoldable pub wake_count : ℕ → Kernel → CondQueue → Option (Kernel × CondQueue)
wake_count zero k cond = some (k, cond)
wake_count (suc count) k cond = wake_one k cond >>= λ r. wake_count count r.1 r.2

-- The loop until no task is left, with fuel: one more than the tasks. `none` also if it runs out.
unfoldable pub wake_all : ℕ → Kernel → CondQueue → Option (Kernel × CondQueue)
wake_all zero k cond = none
wake_all (suc fuel) k cond = wake_one k cond >>= λ r.
    let later = wake_all fuel r.1 r.2 in if r.0 then later else some (r.1, r.2)

-- `__sys_notify`, with a `count` of type `i32`.
unfoldable pub notify : ℕ → Kernel → Conds → ℕ → ℕ → Option (ℕ × Kernel × Conds)
unfolding wake_count wake_all
notify fuel k state ptr count =
    let address = state.words ptr in
    let all = wake_all fuel k (state.conds address) in
    let some_of = wake_count count k (state.conds address) in
    let woken = if ltb count (2 ^ 31) then some_of else all in
    let done =
      woken >>= λ r. some (0, r.0, record state { conds = update state.conds address r.1 }) in
    if (ptr == 0) || (address == 0) then some (neg 1, k, state) else done

-- The wakeup time for a timeout in nanoseconds of type `i64`.
abbrev pub wakeup_time : ℕ → Option ℕ
wakeup_time timeout_ns =
    if is_negative timeout_ns || (timeout_ns == 0) then none else some (timeout_ns / 1000)

-- The state with a queue behind `ptr`, a new one at `boxed` if there was none.
abbrev pub ensure_queue : ℕ → Conds → ℕ → Conds
ensure_queue boxed state ptr =
    if state.words ptr == 0
    then record { conds = update state.conds boxed (new ptr); words = update state.words ptr boxed }
    else state

-- The running task of core `c` is blocked and queued at the condition variable.
abbrev pub enqueue : Kernel → ℕ → Conds → ℕ → Option ℕ → Option (ℕ × Kernel × Conds)
enqueue k c state ptr time = do
  s ← k.schedulers c
  added ← blocked_queue.add k s.blocked_tasks s.current_task time
  let address = state.words ptr
  pushed ← queue.push added.0.tasks (state.conds address).queue s.current_task
  some (
    0,
    record (set_scheduler added.0 c (record s { blocked_tasks = added.1 })) { tasks = pushed.0 },
    record state {
      conds = update state.conds address (record (state.conds address) { queue = pushed.1 });
    },
  )

-- `__sys_add_queue`, where `boxed` is the address of a new box.
unfoldable pub add_queue : ℕ → Kernel → ℕ → Conds → ℕ → ℕ → Option (ℕ × Kernel × Conds)
add_queue boxed k c state ptr timeout_ns =
    let done = enqueue k c (ensure_queue boxed state ptr) ptr (wakeup_time timeout_ns) in
    if ptr == 0 then some (neg 1, k, state) else done
