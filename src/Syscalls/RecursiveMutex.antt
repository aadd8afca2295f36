-- ===== src/Syscalls/RecursiveMutex.antt =====
-- src/syscalls/recmutex.rs. A mutex that was boxed is at its address in a store; `words` is the
-- memory of the application that a pointer to a pointer points to. A panic is `none`.
use libhermit_mpk.Prelude.{ℕ, Option, none, some, ◌==◌, if◌then◌else◌, ◌>>=◌}
use libhermit_mpk.Arch.Mpk.{neg, einval}
use libhermit_mpk.Scheduler.Task.{update}
use libhermit_mpk.Scheduler.Kernel.{Kernel}
use libhermit_mpk.Synch.RecursiveMutex.{RecursiveMutexState, acquire_round, release}
use libhermit_mpk.Synch.RecursiveMutex as mutex

abbrev pub Mutexes : Type 0
Mutexes = ℕ → RecursiveMutexState

-- `__sys_recmutex_init`, where `boxed` is the address of the new box.
unfoldable pub recmutex_init : ℕ → Mutexes → (ℕ → ℕ) → ℕ → ℕ × Mutexes × (ℕ → ℕ)
recmutex_init boxed mutexes words recmutex =
    if recmutex == 0
    then (neg einval, mutexes, words)
    else (0, update mutexes boxed mutex.new, update words recmutex boxed)

-- `__sys_recmutex_destroy`, which keeps the mutex.
abbrev pub recmutex_destroy : ℕ → ℕ
recmutex_destroy recmutex = if recmutex == 0 then neg einval else 0

-- `__sys_recmutex_lock`: a round of `acquire` on core `c`. A call that waits has no return value yet.
unfoldable pub recmutex_lock_round : Kernel → ℕ → Mutexes → ℕ → Option (Option ℕ × Kernel × Mutexes)
recmutex_lock_round k c mutexes recmutex =
    let round = acquire_round k c (mutexes recmutex) in
    if recmutex == 0
    then some (some (neg einval), k, mutexes)
    else round >>= λ r. some ((if r.0 then some 0 else none), r.1, update mutexes recmutex r.2)

-- `__sys_recmutex_unlock`.
unfoldable pub recmutex_unlock : Kernel → Mutexes → ℕ → Option (ℕ × Kernel × Mutexes)
recmutex_unlock k mutexes recmutex =
    let released = release k (mutexes recmutex) in
    if recmutex == 0
    then some (neg einval, k, mutexes)
    else released >>= λ r. some (0, r.0, update mutexes recmutex r.1)
