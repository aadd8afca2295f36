-- ===== src/Syscalls/Timer.antt =====
-- src/syscalls/timer.rs: the clocks. `ticks` is a value of `get_timer_ticks()`, `boot` is
-- `get_boot_time()`. A failed assertion is `none`.
use libhermit_mpk.Prelude.{
  ℕ, Bool, ◌||◌, Option, none, some, ltb, ◌==◌, if◌then◌else◌, add64, sub64, bit_and,
}
use libhermit_mpk.Arch.Mpk.{neg, einval}
use libhermit_mpk.Scheduler.Kernel.{Kernel}
use libhermit_mpk.Syscalls.{
  Timespec, Timeval, clock_realtime, clock_process_cputime_id, clock_thread_cputime_id,
  clock_monotonic, timer_abstime, microseconds_to_timespec, microseconds_to_timeval, is_invalid,
  duration,
}
use libhermit_mpk.Syscalls.Tasks.{usleep, succeeds}

-- Whether the clock can be read.
abbrev pub is_clock : ℕ → Bool
is_clock clock_id = (clock_id == clock_realtime) || (clock_id == clock_monotonic)

-- `__sys_clock_getres`: the error code and the time.
unfoldable pub clock_getres : ℕ → Option Timespec → Option (ℕ × Timespec)
clock_getres clock_id none = none
clock_getres clock_id (some res) = some (
    if is_clock clock_id
      || (clock_id == clock_process_cputime_id)
      || (clock_id == clock_thread_cputime_id)
    then (0, microseconds_to_timespec 1)
    else (neg einval, res))

-- The microseconds of a clock.
abbrev pub clock_time : ℕ → ℕ → ℕ → ℕ
clock_time ticks boot clock_id = if clock_id == clock_realtime then add64 ticks boot else ticks

-- `__sys_clock_gettime`.
unfoldable pub clock_gettime : ℕ → ℕ → ℕ → Option Timespec → Option (ℕ × Timespec)
clock_gettime ticks boot clock_id none = none
clock_gettime ticks boot clock_id (some tp) = some (
    if is_clock clock_id
    then (0, microseconds_to_timespec (clock_time ticks boot clock_id))
    else (neg einval, tp))

-- The time to sleep: an absolute time is made relative.
abbrev pub remaining : ℕ → ℕ → ℕ → ℕ → ℕ → ℕ
remaining ticks boot clock_id flags microseconds =
    let left = sub64 microseconds ticks in
    if ltb 0 (bit_and flags timer_abstime)
    then (if clock_id == clock_realtime then sub64 left boot else left)
    else microseconds

-- `__sys_clock_nanosleep`: the timer is read once here, and once more in `usleep`.
unfoldable pub clock_nanosleep :
    ℕ → ℕ → ℕ → ℕ → ℕ → Kernel → ℕ → ℕ → ℕ → Option Timespec → Option (ℕ × Kernel)
clock_nanosleep ticks boot ticks' now switch_time k c clock_id flags none = none
clock_nanosleep ticks boot ticks' now switch_time k c clock_id flags (some requested_time) =
    let slept =
      usleep ticks' now switch_time k c
        (remaining ticks boot clock_id flags (duration requested_time)) in
    let done = succeeds slept in
    if is_invalid requested_time
    then some (neg einval, k)
    else if is_clock clock_id
    then done
    else some (neg einval, k)

-- `__sys_gettimeofday`: a null `tp` is allowed.
unfoldable pub gettimeofday : ℕ → ℕ → Option Timeval → ℕ → ℕ × Option Timeval
gettimeofday ticks boot tp tz = (
  (if ltb 0 tz then neg einval else 0),
  elim tp [ none ↦ none | some old ↦ some (microseconds_to_timeval (add64 boot ticks)) ],
)
