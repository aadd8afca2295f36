-- ===== src/Synch/RecursiveMutex/Owner.antt =====
-- Who owns the mutex, and how often.
use libhermit_mpk.Prelude.{
  sym, ◌∙◌, ℕ, zero, suc, ◌+◌, ◌<◌, ◌≡◌, ◌≢◌, refl, ap, Option, none, some, arith, ◌>>=◌, add64,
  sub64, u64_mod,
}
use libhermit_mpk.Scheduler.PriorityTaskQueue.Laws.{==_refl, ==_ne}
use libhermit_mpk.Scheduler.PriorityTaskQueue.{PriorityTaskQueue}
use libhermit_mpk.Scheduler.Kernel.{Kernel}
use libhermit_mpk.Synch.RecursiveMutex.{RecursiveMutexState, try_enter, release}

-- `n` further rounds of `acquire` of one task.
abbrev pub enter_times : ℕ → RecursiveMutexState → ℕ → Option RecursiveMutexState
enter_times zero state tid = some state
enter_times (suc n) state tid = try_enter state tid >>= λ state'. enter_times n state' tid

-- `n` calls of `release`.
abbrev pub release_times : ℕ → Kernel → RecursiveMutexState → Option (Kernel × RecursiveMutexState)
release_times zero k state = some (k, state)
release_times (suc n) k state = release k state >>= λ r. release_times n r.0 r.1

-- Owned by a task `n` times.
abbrev pub owned : PriorityTaskQueue → ℕ → ℕ → RecursiveMutexState
owned q tid n = record { current_tid = some tid; count = n; queue = q }

enter_again :
    (n : ℕ) (q : PriorityTaskQueue) (tid count : ℕ)
    → count + n < u64_mod
    → enter_times n (owned q tid count) tid ≡ some (owned q tid (count + n))
unfolding try_enter
enter_again zero q tid count lt =
    let e : count ≡ count + 0 = omega arith in ap (λ (c : ℕ). some (owned q tid c)) e
enter_again (suc n) q tid count lt =
    let e : add64 count 1 ≡ count + 1 = omega arith in
    let e' : count + 1 + n ≡ count + suc n = omega arith in
    rw (==_refl tid, e)
      (enter_again n q tid (count + 1) (omega arith) ∙ ap (λ (c : ℕ). some (owned q tid c)) e')

release_once :
    (k : Kernel) (q : PriorityTaskQueue) (tid count : ℕ)
    → 0 < count
    → suc count < u64_mod
    → release k (owned q tid (suc count)) ≡ some (k, owned q tid count)
unfolding release
release_once k q tid count pos lt =
    let e : sub64 (suc count) 1 ≡ count = omega arith in
    rw (e, ==_ne count 0 (λ z. ground arith)) refl

release_again :
    (n : ℕ) (k : Kernel) (q : PriorityTaskQueue) (tid count : ℕ)
    → 0 < count
    → count + n < u64_mod
    → release_times n k (owned q tid (count + n)) ≡ some (k, owned q tid count)
release_again zero k q tid count pos lt =
    let e : count + 0 ≡ count = omega arith in ap (λ (c : ℕ). some (k, owned q tid c)) e
release_again (suc n) k q tid count pos lt =
    let e : count + suc n ≡ suc (count + n) = omega arith in
    rw (e, release_once k q tid (count + n) (omega arith) (omega arith))
      (release_again n k q tid count pos (omega arith))

enter_free :
    (state : RecursiveMutexState) (tid : ℕ)
    → state.current_tid ≡ none
    → try_enter state tid ≡ some (owned state.queue tid 1)
unfolding try_enter
enter_free state tid e = rw (e, try_enter) refl

-- A free mutex that a task acquires `n + 1` times is then its own, with that count: no other task can
-- acquire it, and after `n` releases it still owns the mutex, with the count 1 and the same waiters.
pub enter_times-owned :
    (n tid other : ℕ) (k : Kernel) (state : RecursiveMutexState)
    → state.current_tid ≡ none
    → suc n < u64_mod
    → tid ≢ other
    → (enter_times (suc n) state tid ≡ some (owned state.queue tid (suc n)))
      × (try_enter (owned state.queue tid (suc n)) other ≡ none)
      × (release_times n k (owned state.queue tid (suc n)) ≡ some (k, owned state.queue tid 1))
unfolding try_enter
enter_times-owned n tid other k state free lt ne =
    let e : 1 + n ≡ suc n = omega arith in
    (
      rw (enter_free state tid free) (
          enter_again n state.queue tid 1 (omega arith)
          ∙ ap (λ (c : ℕ). some (owned state.queue tid c)) e),
      rw (==_ne tid other ne) refl,
      rw (sym e) (release_again n k state.queue tid 1 (omega arith) (omega arith)),
    )
