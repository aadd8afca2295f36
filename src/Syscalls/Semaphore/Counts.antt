-- ===== src/Syscalls/Semaphore/Counts.antt =====
-- How often a semaphore can be taken without waiting.
use libhermit_mpk.Prelude.{
  ℕ, zero, suc, ◌+◌, ◌<◌, ◌≡◌, ◌≢◌, refl, true, false, arith, ◌^◌, ◌==◌, List, [], ◌∷◌, ◌++◌,
}
use libhermit_mpk.Arch.Mpk.{neg}
use libhermit_mpk.Scheduler.Task.{update}
use libhermit_mpk.Scheduler.PriorityTaskQueue.Laws.{==_refl, ==_ne}
use libhermit_mpk.Synch.Semaphore.{is_positive, try_acquire, new}
use libhermit_mpk.Syscalls.Semaphore.{Semaphores, sem_init, sem_trywait, ecanceled}

-- The return values of a number of calls of `sem_trywait`, one after the other.
abbrev pub trywaits : ℕ → Semaphores → ℕ → List ℕ
trywaits zero sems sem = []
trywaits (suc n) sems sem = let (code, sems') = sem_trywait sems sem in code ∷ trywaits n sems' sem

abbrev pub replicate : ℕ → ℕ → List ℕ
replicate zero x = []
replicate (suc n) x = x ∷ replicate n x

-- A call of `sem_trywait` takes one of a positive count, or is refused.
takes :
    (sems : Semaphores) (sem n : ℕ)
    → sem ≢ 0
    → (sems sem).count ≡ suc n
    → suc n < 2 ^ 63
    → ((sem_trywait sems sem).0 ≡ 0) × (((sem_trywait sems sem).1 sem).count ≡ n)
unfolding sem_trywait try_acquire
takes sems sem n ne e lt =
    let p : is_positive (sems sem).count ≡ true = rw e (ground arith) in
    let own : (sem == sem) ≡ true = ==_refl sem in rw (==_ne sem 0 ne, p, own) (refl, omega arith)

refused :
    (sems : Semaphores) (sem : ℕ)
    → sem ≢ 0
    → (sems sem).count ≡ 0
    → ((sem_trywait sems sem).0 ≡ neg ecanceled) × (((sem_trywait sems sem).1 sem).count ≡ 0)
unfolding sem_trywait try_acquire
refused sems sem ne e =
    let p : is_positive (sems sem).count ≡ false = rw e (ground arith) in
    let own : (sem == sem) ≡ true = ==_refl sem in rw (==_ne sem 0 ne, p, own) (refl, e)

all_refused :
    (m : ℕ) (sems : Semaphores) (sem : ℕ)
    → sem ≢ 0
    → (sems sem).count ≡ 0
    → trywaits m sems sem ≡ replicate m (neg ecanceled)
all_refused zero sems sem ne e = refl
all_refused (suc m) sems sem ne e =
    let (code, left) = refused sems sem ne e in
    rw (code, all_refused m (sem_trywait sems sem).1 sem ne left) refl

trywaits_lem :
    (n m : ℕ) (sems : Semaphores) (sem : ℕ)
    → sem ≢ 0
    → (sems sem).count ≡ n
    → n < 2 ^ 63
    → trywaits (n + m) sems sem ≡ replicate n 0 ++ replicate m (neg ecanceled)
trywaits_lem zero m sems sem ne e lt =
    let z : 0 + m ≡ m = omega arith in rw z (all_refused m sems sem ne e)
trywaits_lem (suc n) m sems sem ne e lt =
    let (code, left) = takes sems sem n ne e lt in
    let z : suc n + m ≡ suc (n + m) = omega arith in
    rw (z, code, trywaits_lem n m (sem_trywait sems sem).1 sem ne left (omega arith)) refl

-- A semaphore that was made with the value `n`, a `u32`, is found through the pointer, and can be
-- taken exactly `n` times: as many calls of `sem_trywait` return 0, and all later ones
-- `-ECANCELED`. Neither the pointer nor the address of the box is null.
pub sem_init-trywaits :
    (boxed sem n m : ℕ) (sems : Semaphores) (words : ℕ → ℕ)
    → sem ≢ 0
    → boxed ≢ 0
    → n < 2 ^ 32
    → ((sem_init boxed sems words sem n).0 ≡ 0)
      × ((sem_init boxed sems words sem n).2 sem ≡ boxed)
      × (trywaits (n + m) (sem_init boxed sems words sem n).1 boxed
          ≡ replicate n 0 ++ replicate m (neg ecanceled))
unfolding sem_init new
sem_init-trywaits boxed sem n m sems words ne ne' lt =
    let own : (sem == sem) ≡ true = ==_refl sem in
    let own' : (boxed == boxed) ≡ true = ==_refl boxed in
    rw (==_ne sem 0 ne) (
      refl,
      rw own refl,
      trywaits_lem n m (update sems boxed (new n)) boxed ne' (rw own' refl) (omega arith),
    )
