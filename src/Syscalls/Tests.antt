-- ===== src/Syscalls/Tests.antt =====
-- System calls at concrete inputs: task 3 runs on core 0.
use libhermit_mpk.Prelude.{◌-◌, ◌^◌, ◌≤◌, ◌≡◌, [], ◌∷◌, refl, some, if◌then◌else◌, arith, u64_mod}
use libhermit_mpk.Scheduler.Task.{TaskStatus}
use libhermit_mpk.Scheduler.Kernel.{Kernel}
use libhermit_mpk.Scheduler.Sample.{small_kernel}
use libhermit_mpk.Syscalls.{Timespec}
use libhermit_mpk.Syscalls.Tasks.{sbrk, block_until, succeeds, select_core}
use libhermit_mpk.Syscalls.Timer.{clock_gettime, clock_nanosleep}
use libhermit_mpk.Syscalls.Sleeps.{shown, is_soon, clock_nanosleep-clock_gettime}
use libhermit_mpk.Syscalls.Breaks.{sbrk-moves}
use libhermit_mpk.Arch.Mpk.{neg}
use libhermit_mpk.Scheduler.PriorityTaskQueue as queue
use libhermit_mpk.Syscalls.Semaphore.{Semaphores, sem_init, ecanceled}
use libhermit_mpk.Syscalls.Semaphore.Counts.{trywaits, sem_init-trywaits}

abbrev kernel : Kernel
kernel = small_kernel TaskStatus.running

abbrev no_semaphores : Semaphores
no_semaphores a = record { count = 0; queue = queue.new }

abbrev zero_time : Timespec
zero_time = record { tv_sec = 0; tv_nsec = 0 }

clock_nanosleep-clock_gettime_example :
    (clock_gettime 50000 7000000 1 (some zero_time) ≡ some (0, shown 50000 7000000 1))
    × (clock_nanosleep 20000 7000000 20003 20005 20009 kernel 0 1 4 (some (shown 50000 7000000 1))
        ≡ succeeds
            (if is_soon 20000 50000 then some kernel else block_until 20005 20009 kernel 0 50003))
clock_nanosleep-clock_gettime_example =
    clock_nanosleep-clock_gettime 20000 20003 7000000 20005 20009 kernel 0 1 4 50000 zero_time refl
      refl (omega arith) (omega arith) (omega arith) (omega arith)

sbrk-moves_example :
    (sbrk 4096 65536 8192 512 ≡ some (8192, 8704))
    × (sbrk 4096 65536 8192 (u64_mod - 1024) ≡ some (8192, 7168))
    × (sbrk 4096 65536 8192 (u64_mod - 10000) ≡ some (8192, u64_mod - 1808))
    × (2 ^ 63 ≤ u64_mod - 1808)
sbrk-moves_example =
    sbrk-moves 4096 65536 8192 512 1024 10000 (omega arith) (omega arith) (omega arith)
      (omega arith) (omega arith) (omega arith) (omega arith) (omega arith)

sem_init-trywaits_example :
    ((sem_init 100 no_semaphores (λ a. 0) 8 2).0 ≡ 0)
    × ((sem_init 100 no_semaphores (λ a. 0) 8 2).2 8 ≡ 100)
    × (trywaits 3 (sem_init 100 no_semaphores (λ a. 0) 8 2).1 100 ≡ 0 ∷ 0 ∷ neg ecanceled ∷ [])
sem_init-trywaits_example =
    sem_init-trywaits 100 8 2 1 no_semaphores (λ a. 0) (λ e. ground arith) (λ e. ground arith)
      (omega arith)

-- Round robin over four cores.
select_core_example : select_core 4 6 (u64_mod - 1) ≡ (2, 7)
unfolding select_core
select_core_example = refl
