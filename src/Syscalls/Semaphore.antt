-- ===== src/Syscalls/Semaphore.antt =====
-- src/syscalls/semaphore.rs. A semaphore that was boxed is at its address in a store; `words` is the
-- memory of the application that a pointer to a pointer points to. A call that waits is still in
-- the loop of `acquire`, so it has no return value yet. A panic is `none`.
pub mod Counts
use libhermit_mpk.Prelude.{
  ℕ, ◌+◌, ◌*◌, Bool, true, false, Option, none, some, ltb, ◌==◌, if◌then◌else◌, ◌>>=◌, add64,
}
use libhermit_mpk.Arch.Mpk.{neg, einval}
use libhermit_mpk.Scheduler.Task.{update}
use libhermit_mpk.Scheduler.Kernel.{Kernel}
use libhermit_mpk.Synch.Semaphore.{
  SemaphoreState, Round, try_acquire, acquire, acquire_round, release,
}
use libhermit_mpk.Synch.Semaphore as semaphore

abbrev pub etime : ℕ
etime = 62

abbrev pub ecanceled : ℕ
ecanceled = 125

abbrev pub Semaphores : Type 0
Semaphores = ℕ → SemaphoreState

-- `__sys_sem_init`, where `boxed` is the address of the new box.
unfoldable pub sem_init : ℕ → Semaphores → (ℕ → ℕ) → ℕ → ℕ → ℕ × Semaphores × (ℕ → ℕ)
sem_init boxed sems words sem value =
    if sem == 0
    then (neg einval, sems, words)
    else (0, update sems boxed (semaphore.new value), update words sem boxed)

-- `__sys_sem_destroy`, which keeps the semaphore.
abbrev pub sem_destroy : ℕ → ℕ
sem_destroy sem = if sem == 0 then neg einval else 0

-- `__sys_sem_post`.
unfoldable pub sem_post : Kernel → Semaphores → ℕ → Option (ℕ × Kernel × Semaphores)
sem_post k sems sem =
    let released = release k (sems sem) in
    if sem == 0
    then some (neg einval, k, sems)
    else released >>= λ r. some (0, r.0, update sems sem r.1)

-- `__sys_sem_trywait`.
unfoldable pub sem_trywait : Semaphores → ℕ → ℕ × Semaphores
sem_trywait sems sem =
    let (acquired, state) = try_acquire (sems sem) in
    if sem == 0
    then (neg einval, sems)
    else ((if acquired then 0 else neg ecanceled), update sems sem state)

-- The absolute wakeup time of a timeout in milliseconds; `ticks` is `get_timer_ticks()`.
abbrev pub wakeup_after : ℕ → ℕ → Option ℕ
wakeup_after ticks ms = if ltb 0 ms then some (add64 ticks (ms * 1000)) else none

-- The return value after a round of `acquire`.
abbrev pub returned : Round → Option ℕ
returned Round.acquired = some 0
returned Round.timed_out = some (neg etime)
returned Round.waits = none

abbrev pub answer :
    Semaphores
    → ℕ
    → Option (Round × Kernel × SemaphoreState)
    → Option (Option ℕ × Kernel × Semaphores)
answer sems sem none = none
answer sems sem (some (round, k, state)) = some (returned round, k, update sems sem state)

-- `__sys_sem_timedwait` and `sys_sem_cancelablewait`, on core `c`, up to the end of the first round
-- of `acquire`.
unfoldable pub sem_timedwait :
    ℕ → ℕ → Kernel → ℕ → Semaphores → ℕ → ℕ → Option (Option ℕ × Kernel × Semaphores)
sem_timedwait ticks fuel k c sems sem ms =
    let round = acquire fuel k c (sems sem) (wakeup_after ticks ms) in
    if sem == 0 then some (some (neg einval), k, sems) else answer sems sem round

-- A further round, when the task runs again.
unfoldable pub sem_timedwait_round :
    ℕ → Kernel → ℕ → Semaphores → ℕ → Option ℕ → Option (Option ℕ × Kernel × Semaphores)
sem_timedwait_round fuel k c sems sem wakeup_time =
    answer sems sem (acquire_round fuel k c (sems sem) wakeup_time)
