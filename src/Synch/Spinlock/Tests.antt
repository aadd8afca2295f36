-- ===== src/Synch/Spinlock/Tests.antt =====
-- A run of the lock: thread 5 gets it while thread 6 spins.
use libhermit_mpk.Prelude.{◌≡◌, refl, arith}
use libhermit_mpk.Synch.Spinlock.{
  fetch_ticket, is_called, spinning, locked, System, start, set_phase, fetches, enters, Reachable,
  starts, steps,
}
use libhermit_mpk.Synch.Spinlock.Exclusion.{Reachable-excludes}
use libhermit_mpk.Synch.Spinlock.Progress.{Served, Reachable-Served}

abbrev one_spins : System
one_spins = record {
  lock = record { queue = 1; dequeue = 1 };
  threads = set_phase start.threads 5 (spinning 1);
}

abbrev two_spin : System
two_spin = record {
  lock = record { queue = 2; dequeue = 1 };
  threads = set_phase one_spins.threads 6 (spinning 2);
}

abbrev one_holds : System
one_holds = record two_spin { threads = set_phase two_spin.threads 5 (locked 1) }

one_holds-Reachable : Reachable one_holds
unfolding fetch_ticket is_called
one_holds-Reachable =
    steps 5 two_spin one_holds
      (steps 6 one_spins two_spin (steps 5 start one_spins starts (fetches refl (omega arith)))
        (fetches refl (omega arith)))
      (enters 1 refl refl)

Reachable-excludes_example : ¬ (one_holds.threads 6 ≡ locked 1)
Reachable-excludes_example =
    Reachable-excludes one_holds 5 6 1 1 one_holds-Reachable refl (λ e. ground arith)

Reachable-Served_example : Served 6 2 3 one_holds
Reachable-Served_example = Reachable-Served 1 6 2 one_holds one_holds-Reachable refl refl
