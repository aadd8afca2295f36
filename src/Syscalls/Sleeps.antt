-- ===== src/Syscalls/Sleeps.antt =====
-- Sleeps until a time that a clock shows.
use libhermit_mpk.Prelude.{
  ℕ, ◌+◌, ◌-◌, ◌^◌, ◌≤◌, ◌<◌, ◌≡◌, refl, Bool, true, false, ◌&&◌, some, not, ltb, leb, ◌==◌,
  if◌then◌else◌, add64, sub64, u64_mod, bit_and, arith, Bool-cases, inl, inr,
}
use libhermit_mpk.Scheduler.Kernel.{Kernel}
use libhermit_mpk.Scheduler.PerCoreScheduler.{task_time_slice}
use libhermit_mpk.Syscalls.{
  Timespec, timer_abstime, microseconds_to_timespec, is_invalid, duration, clock_realtime,
}
use libhermit_mpk.Syscalls.Tasks.{usleep, block_until, succeeds}
use libhermit_mpk.Syscalls.Timer.{is_clock, clock_time, remaining, clock_gettime, clock_nanosleep}

duration_lem : (t : ℕ) → t < u64_mod → duration (microseconds_to_timespec t) ≡ t
duration_lem t lt = omega arith

valid_lem : (t : ℕ) → t < u64_mod → is_invalid (microseconds_to_timespec t) ≡ false
valid_lem t lt = ground arith

remaining_lem :
    (ticks boot clock_id flags wake : ℕ)
    → ltb 0 (bit_and flags timer_abstime) ≡ true
    → ticks < u64_mod
    → wake + boot < u64_mod
    → remaining ticks boot clock_id flags (clock_time wake boot clock_id) ≡ sub64 wake ticks
remaining_lem ticks boot clock_id flags wake abs lt lt' =
    elim (Bool-cases (clock_id == clock_realtime)) [
      | inl e ↦ rw (e, abs) (omega arith)
      | inr e ↦ rw (e, abs) (omega arith)
    ]

-- Whether a time is not yet over, but within the time slice of a task.
abbrev pub is_soon : ℕ → ℕ → Bool
is_soon ticks wake = leb ticks wake && leb wake (ticks + task_time_slice)

soon_lem :
    (ticks wake : ℕ)
    → ticks < 2 ^ 63
    → wake < u64_mod
    → ltb task_time_slice (sub64 wake ticks) ≡ not (is_soon ticks wake)
soon_lem ticks wake lt lt' = ground arith

wake_lem :
    (ticks ticks' wake : ℕ)
    → ticks ≤ ticks'
    → ticks' < 2 ^ 63
    → wake + (ticks' - ticks) < u64_mod
    → add64 ticks' (sub64 wake ticks) ≡ wake + (ticks' - ticks)
wake_lem ticks ticks' wake le lt lt' = omega arith

usleep_lem :
    (ticks ticks' now switch_time : ℕ) (k : Kernel) (c wake : ℕ)
    → ticks ≤ ticks'
    → ticks' < 2 ^ 63
    → wake + (ticks' - ticks) < u64_mod
    → usleep ticks' now switch_time k c (sub64 wake ticks) ≡ (
        if is_soon ticks wake
        then some k
        else block_until now switch_time k c (wake + (ticks' - ticks)))
unfolding usleep
usleep_lem ticks ticks' now switch_time k c wake le lt lt' =
    rw (soon_lem ticks wake (omega arith) (omega arith), wake_lem ticks ticks' wake le lt lt')
      (elim (Bool-cases (is_soon ticks wake)) [ inl e ↦ rw e refl | inr e ↦ rw e refl ])

-- What the clock shows at a tick.
abbrev pub shown : ℕ → ℕ → ℕ → Timespec
shown tick boot clock_id = microseconds_to_timespec (clock_time tick boot clock_id)

time_lem :
    (wake boot clock_id : ℕ) → wake + boot < u64_mod → clock_time wake boot clock_id < u64_mod
time_lem wake boot clock_id lt = ground arith

-- An absolute sleep until a time that the clock shows at the tick `wake`, for ticks below 2 ^ 63 and
-- times that fit into a word. If that tick is within the time slice of a task the call returns 0
-- and blocks nothing, otherwise the task is blocked until that tick, later by the ticks that pass
-- between the two reads of the timer. This holds for both clocks, also for a time that is over.
pub clock_nanosleep-clock_gettime :
    (ticks ticks' boot now switch_time : ℕ) (k : Kernel) (c clock_id flags wake : ℕ) (t : Timespec)
    → is_clock clock_id ≡ true
    → ltb 0 (bit_and flags timer_abstime) ≡ true
    → ticks ≤ ticks'
    → ticks' < 2 ^ 63
    → wake + (ticks' - ticks) < u64_mod
    → wake + boot < u64_mod
    → (clock_gettime wake boot clock_id (some t) ≡ some (0, shown wake boot clock_id))
      × (clock_nanosleep ticks boot ticks' now switch_time k c clock_id flags
            (some (shown wake boot clock_id))
          ≡ succeeds (
              if is_soon ticks wake
              then some k
              else block_until now switch_time k c (wake + (ticks' - ticks))))
unfolding clock_gettime clock_nanosleep
clock_nanosleep-clock_gettime ticks ticks' boot now switch_time k c clock_id flags wake t ok abs le
      lt lt' lt'' =
    let b = time_lem wake boot clock_id lt'' in
    (
      rw ok refl,
      rw
          (
            valid_lem (clock_time wake boot clock_id) b,
            ok,
            duration_lem (clock_time wake boot clock_id) b,
            remaining_lem ticks boot clock_id flags wake abs (omega arith) lt'',
            usleep_lem ticks ticks' now switch_time k c wake le lt lt',
          )
          refl,
    )
