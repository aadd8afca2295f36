-- ===== src/Syscalls.antt =====
-- The structures and constants of src/syscalls/timer.rs, which the system calls share. The argument
-- of a pointer type is what the pointer points to, or `none` for a null pointer; the result has
-- what it points to afterwards. The macros around a system call, which switch the protection keys,
-- are left out. An `i64` is a word in two's complement.
pub mod Timer
pub mod Tasks
pub mod Sleeps
pub mod Breaks
pub mod Semaphore
pub mod RecursiveMutex
pub mod CondVar
mod Tests
use libhermit_mpk.Prelude.{ℕ, ◌+◌, ◌-◌, ◌*◌, ◌/◌, ◌%◌, ◌^◌, Bool, ◌||◌, not, ltb, u64_mod, add64}

pub record Timespec : Type 0 where
  pub tv_sec : ℕ
  pub tv_nsec : ℕ

pub record Timeval : Type 0 where
  pub tv_sec : ℕ
  pub tv_usec : ℕ

abbrev pub clock_realtime : ℕ
clock_realtime = 1

abbrev pub clock_process_cputime_id : ℕ
clock_process_cputime_id = 2

abbrev pub clock_thread_cputime_id : ℕ
clock_thread_cputime_id = 3

abbrev pub clock_monotonic : ℕ
clock_monotonic = 4

abbrev pub timer_abstime : ℕ
timer_abstime = 4

abbrev pub microseconds_to_timespec : ℕ → Timespec
microseconds_to_timespec microseconds = record {
  tv_sec = microseconds / 1000000;
  tv_nsec = microseconds % 1000000 * 1000;
}

abbrev pub microseconds_to_timeval : ℕ → Timeval
microseconds_to_timeval microseconds = record {
  tv_sec = microseconds / 1000000;
  tv_usec = microseconds % 1000000;
}

-- `x < 0` for an `i64`.
abbrev pub is_negative : ℕ → Bool
is_negative x = not (ltb x (2 ^ 63))

-- Whether the requested time of a sleep is refused.
abbrev pub is_invalid : Timespec → Bool
is_invalid t = (is_negative t.tv_sec || is_negative t.tv_nsec) || ltb 999999999 t.tv_nsec

-- The microseconds of a requested time.
abbrev pub duration : Timespec → ℕ
duration t = add64 (t.tv_sec * 1000000 % u64_mod) (t.tv_nsec / 1000)
