-- ===== src/Synch/RecursiveMutex/Tests.antt =====
-- The recursive mutex at concrete inputs.
use libhermit_mpk.Prelude.{◌≡◌, refl, none, some, arith}
use libhermit_mpk.Scheduler.Task.{TaskStatus}
use libhermit_mpk.Scheduler.Kernel.{Kernel}
use libhermit_mpk.Scheduler.Sample.{small_kernel}
use libhermit_mpk.Synch.RecursiveMutex.{new, try_enter}
use libhermit_mpk.Synch.RecursiveMutex.Owner.{enter_times, release_times, owned, enter_times-owned}

abbrev kernel : Kernel
kernel = small_kernel TaskStatus.running

new_free : new.current_tid ≡ none
unfolding new
new_free = refl

enter_times-owned_example :
    (enter_times 3 new 7 ≡ some (owned new.queue 7 3))
    × (try_enter (owned new.queue 7 3) 8 ≡ none)
    × (release_times 2 kernel (owned new.queue 7 3) ≡ some (kernel, owned new.queue 7 1))
enter_times-owned_example =
    enter_times-owned 2 7 8 kernel new new_free (omega arith) (λ e. ground arith)
