-- ===== src/Synch/Spinlock.antt =====
-- `Spinlock` of src/synch/spinlock.rs, a ticket lock. Each atomic operation is a step; the data
-- behind the lock and the memory orderings (all are `SeqCst`) are left out.
pub mod Exclusion
pub mod Progress
mod Tests
use libhermit_mpk.Prelude.{ℕ, ◌+◌, ◌<◌, ◌≡◌, Bool, true, ◌==◌, if◌then◌else◌, add64, u64_mod}

pub record Spinlock : Type 0 where
  pub queue : ℕ
  pub dequeue : ℕ

-- `Spinlock::new`.
abbrev pub new : Spinlock
new = record { queue = 0; dequeue = 1 }

-- `obtain_lock` takes a ticket, and spins until it is called.
pub fetch_ticket : Spinlock → Spinlock × ℕ
fetch_ticket lock = (record lock { queue = add64 lock.queue 1 }, add64 lock.queue 1)

pub is_called : Spinlock → ℕ → Bool
is_called lock ticket = lock.dequeue == ticket

-- The drop of the guard.
pub unlock : Spinlock → Spinlock
unlock lock = record lock { dequeue = add64 lock.dequeue 1 }

-- Where a thread stands: outside, spinning, or with the guard.
pub data Phase : Type 0 where
  outside : Phase
  spinning : ℕ → Phase
  locked : ℕ → Phase

pub record System : Type 0 where
  pub lock : Spinlock
  pub threads : ℕ → Phase

abbrev pub start : System
start = record { lock = new; threads = λ a. Phase.outside }

abbrev pub set_phase : (ℕ → Phase) → ℕ → Phase → ℕ → Phase
set_phase threads a phase b = if a == b then phase else threads b

-- A step of thread `a`. The counter of tickets does not wrap around.
pub data Step (a : ℕ) (s : System) : System → Type 0 where
  fetches :
      s.threads a ≡ Phase.outside
      → s.lock.queue + 2 < u64_mod
      → Step a s (record {
        lock = (fetch_ticket s.lock).0;
        threads = set_phase s.threads a (Phase.spinning (fetch_ticket s.lock).1);
      })
  spins : (ticket : ℕ) → s.threads a ≡ Phase.spinning ticket → Step a s s
  enters :
      (ticket : ℕ)
      → s.threads a ≡ Phase.spinning ticket
      → is_called s.lock ticket ≡ true
      → Step a s (record s { threads = set_phase s.threads a (Phase.locked ticket) })
  leaves :
      (ticket : ℕ)
      → s.threads a ≡ Phase.locked ticket
      → Step a s (record { lock = unlock s.lock; threads = set_phase s.threads a Phase.outside })

pub data Reachable : System → Type 0 where
  starts : Reachable start
  steps : (a : ℕ) (s s' : System) → Reachable s → Step a s s' → Reachable s'
