-- ===== src/Syscalls/Tasks.antt =====
-- src/syscalls/tasks.rs: the system calls on tasks, on the core `c`. `ticks` and `now` are values of
-- `get_timer_ticks()`, `now` the one that the scheduler reads. A panic is `none`.
use libhermit_mpk.Prelude.{
  ℕ, ◌-◌, ◌*◌, ◌%◌, Bool, true, Option, none, some, ltb, leb, ◌==◌, if◌then◌else◌, ◌>>=◌, ◌>>◌,
  require, add64, sub64, u32_mod, u64_mod,
}
use libhermit_mpk.Arch.Mpk.{neg, einval}
use libhermit_mpk.Scheduler.Kernel.{Kernel, set_scheduler}
use libhermit_mpk.Scheduler.BlockedTaskQueue as blocked_queue
use libhermit_mpk.Scheduler.PerCoreScheduler.{scheduler, task_time_slice}
use libhermit_mpk.Scheduler.Lifecycle as lifecycle
use libhermit_mpk.Syscalls.{Timespec, is_negative, is_invalid, duration}

-- `__sys_getpid`.
pub getpid : Kernel → ℕ → Option ℕ
getpid k c = do s ← k.schedulers c; some (k.tasks s.current_task).id

-- Whether a pointer is null or points to a number.
abbrev pub null_or : ℕ → Option ℕ → Bool
null_or x none = true
null_or x (some y) = y == x

-- `__sys_getprio`.
pub getprio : Kernel → ℕ → Option ℕ → Option ℕ
getprio k c id = do
  s ← k.schedulers c
  let current = k.tasks s.current_task
  some (if null_or current.id id then current.prio else neg einval)

-- The running task waits until a time, and the core switches to the next task.
abbrev pub block_until : ℕ → ℕ → Kernel → ℕ → ℕ → Option Kernel
block_until now switch_time k c wakeup_time = do
  s ← k.schedulers c
  added ← blocked_queue.add k s.blocked_tasks s.current_task (some wakeup_time)
  r ← scheduler now switch_time (set_scheduler added.0 c (record s { blocked_tasks = added.1 })) c
  some r.0

-- `__sys_usleep`: a short time is spent in `udelay`, which changes nothing here.
unfoldable pub usleep : ℕ → ℕ → ℕ → Kernel → ℕ → ℕ → Option Kernel
usleep ticks now switch_time k c usecs =
    if ltb task_time_slice usecs
    then block_until now switch_time k c (add64 ticks usecs)
    else some k

-- The return value 0 of a sleep that comes back.
abbrev pub succeeds : Option Kernel → Option (ℕ × Kernel)
succeeds none = none
succeeds (some k) = some (0, k)

-- `sys_msleep`.
abbrev pub msleep : ℕ → ℕ → ℕ → Kernel → ℕ → ℕ → Option Kernel
msleep ticks now switch_time k c ms = usleep ticks now switch_time k c (ms * 1000)

-- `sys_nanosleep`: the error code and the kernel.
unfoldable pub nanosleep : ℕ → ℕ → ℕ → Kernel → ℕ → Option Timespec → Option (ℕ × Kernel)
nanosleep ticks now switch_time k c none = none
nanosleep ticks now switch_time k c (some requested_time) =
    let slept = usleep ticks now switch_time k c (duration requested_time) in
    if is_invalid requested_time then some (neg einval, k) else succeeds slept

-- `__sys_sbrk`, on the counter `SBRK_COUNTER` and the bounds of the heap of the application: the
-- old end and the new counter. `incr` is an `isize`, of which `abs` wraps.
unfoldable pub sbrk : ℕ → ℕ → ℕ → ℕ → Option (ℕ × ℕ)
sbrk task_heap_start task_heap_end counter incr =
    if is_negative incr
    then require (ltb task_heap_start (sub64 counter (u64_mod - incr)))
      >> some (counter, sub64 counter (u64_mod - incr))
    else require (leb (add64 counter incr) task_heap_end) >> some (counter, add64 counter incr)

-- What a non-null `id` points to after a task was made.
abbrev pub stored : Option ℕ → ℕ → Option ℕ
stored none tid = none
stored (some old) tid = some (tid % u32_mod)

-- `__sys_clone`: the error code, what `id` points to and the kernel.
unfoldable pub clone : ℕ → ℕ → Kernel → ℕ → ℕ → Option ℕ → Option (ℕ × Option ℕ × Kernel)
clone processor_count fuel k c task id = do
  r ← lifecycle.clone processor_count fuel k c task
  some (0, stored id r.1, r.0)

-- The core that `__sys_spawn` selects, and `CORE_COUNTER` afterwards.
unfoldable pub select_core : ℕ → ℕ → ℕ → ℕ × ℕ
select_core processor_count core_counter selector =
    if is_negative selector
    then (core_counter % processor_count, add64 core_counter 1)
    else (selector, core_counter)

-- `__sys_spawn`: the error code, what `id` points to, the kernel and `CORE_COUNTER`.
unfoldable pub spawn :
    ℕ → ℕ → ℕ → Kernel → ℕ → Option ℕ → ℕ → ℕ → Option (ℕ × Option ℕ × Kernel × ℕ)
spawn processor_count core_counter fuel k task id prio selector = do
  let core = select_core processor_count core_counter selector
  r ← lifecycle.spawn fuel k core.0 task prio
  some (0, stored id r.1, r.0, core.1)

-- `__sys_join`.
unfoldable pub join : ℕ → ℕ → Kernel → ℕ → ℕ → Option (ℕ × Kernel)
join now switch_time k c id = do
  r ← lifecycle.join now switch_time k c id
  some ((if r.0 then 0 else neg einval), r.1)

-- `sys_yield`.
unfoldable pub yield : ℕ → ℕ → Kernel → ℕ → Option Kernel
yield now switch_time k c = scheduler now switch_time k c >>= λ r. some r.0
