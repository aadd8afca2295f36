-- ===== src/Synch/Spinlock/Exclusion.antt =====
-- At most one thread holds the lock.
use libhermit_mpk.Prelude.{
  ◌⊎◌, inl, inr, ℕ, ◌+◌, ◌<◌, ◌≤◌, ◌≡◌, ◌≢◌, sym, ap, ◌∙◌, Option, none, some, add64, u64_mod,
  arith,
}
use native.Mathlib.Decide.{ℕ_discrete}
use libhermit_mpk.Synch.Spinlock.{
  fetch_ticket, is_called, unlock, Phase, outside, spinning, locked, System, start, set_phase, Step,
  fetches, spins, enters, leaves, Reachable, starts, steps,
}

-- The ticket of a thread.
abbrev pub ticket_of : Phase → Option ℕ
ticket_of outside = none
ticket_of (spinning t) = some t
ticket_of (locked t) = some t

-- Tickets lie between the two counters, no two threads have the same, and the lock is held with the
-- ticket that is called.
pub record IsFair (s : System) : Type 0 where
  pub bounded : s.lock.queue + 1 < u64_mod
  pub ordered : s.lock.dequeue ≤ s.lock.queue + 1
  pub tickets :
      (a t : ℕ) → ticket_of (s.threads a) ≡ some t → (s.lock.dequeue ≤ t) × (t ≤ s.lock.queue)
  pub distinct :
      (a b t : ℕ) → ticket_of (s.threads a) ≡ some t → ticket_of (s.threads b) ≡ some t → a ≡ b
  pub called : (a t : ℕ) → s.threads a ≡ locked t → t ≡ s.lock.dequeue

start-IsFair : IsFair start
start-IsFair = record {
  bounded = omega arith;
  ordered = omega arith;
  tickets = λ a t e. absurd (ground arith);
  distinct = λ a b t e. absurd (ground arith);
  called = λ a t e. absurd (ground arith);
}

-- What is known of a thread after thread `a` has changed its phase.
ticket-set_phase :
    (threads : ℕ → Phase) (a b t : ℕ) (p : Phase)
    → ticket_of (set_phase threads a p b) ≡ some t
    → ((a ≡ b) × (ticket_of p ≡ some t)) ⊎ ((a ≢ b) × (ticket_of (threads b) ≡ some t))
ticket-set_phase threads a b t p e = elim (ℕ_discrete a b) [
  | yes same ↦ inl (same, ground arith)
  | no ne ↦ inr (ne, ground arith)
]

locked-set_phase :
    (threads : ℕ → Phase) (a b t : ℕ) (p : Phase)
    → set_phase threads a p b ≡ locked t
    → ((a ≡ b) × (p ≡ locked t)) ⊎ ((a ≢ b) × (threads b ≡ locked t))
locked-set_phase threads a b t p e = elim (ℕ_discrete a b) [
  | yes same ↦ inl (same, ground arith)
  | no ne ↦ inr (ne, ground arith)
]

Step-IsFair : (a : ℕ) (s s' : System) → IsFair s → Step a s s' → IsFair s'
unfolding fetch_ticket is_called unlock
Step-IsFair a s _ v (fetches e lt) = record {
  bounded = omega (arith, lt);
  ordered = omega (arith, lt, v.ordered, v.bounded);
  tickets = λ b t m. ground (
    arith,
    lt,
    v.ordered,
    v.bounded,
    v.tickets b t,
    ticket-set_phase s.threads a b t (spinning (add64 s.lock.queue 1)) m,
  );
  distinct = λ b c t m n. ground (
    arith,
    v.bounded,
    v.tickets b t,
    v.tickets c t,
    v.distinct b c t,
    ticket-set_phase s.threads a b t (spinning (add64 s.lock.queue 1)) m,
    ticket-set_phase s.threads a c t (spinning (add64 s.lock.queue 1)) n,
  );
  called = λ b t m.
      ground
        (arith, v.called b t, locked-set_phase s.threads a b t (spinning (add64 s.lock.queue 1)) m);
}
Step-IsFair a s _ v (spins ticket e) = v
Step-IsFair a s _ v (enters ticket e c) = record {
  bounded = v.bounded;
  ordered = v.ordered;
  tickets = λ b t m.
      ground
        (arith, v.tickets b t, ap ticket_of e, ticket-set_phase s.threads a b t (locked ticket) m);
  distinct = λ b c t m n. ground (
    arith,
    v.distinct b c t,
    ap ticket_of e,
    ticket-set_phase s.threads a b t (locked ticket) m,
    ticket-set_phase s.threads a c t (locked ticket) n,
  );
  called =
      λ b t m. ground (arith, v.called b t, c, locked-set_phase s.threads a b t (locked ticket) m);
}
Step-IsFair a s _ v (leaves ticket e) = record {
  bounded = v.bounded;
  ordered = omega (arith, v.bounded, v.ordered, v.tickets a ticket (ap ticket_of e));
  tickets = λ b t m. ground (
    arith,
    v.bounded,
    v.tickets b t,
    v.called a ticket e,
    v.distinct a b t,
    ap ticket_of e,
    ticket-set_phase s.threads a b t outside m,
  );
  distinct = λ b c t m n. ground (
    arith,
    v.distinct b c t,
    ticket-set_phase s.threads a b t outside m,
    ticket-set_phase s.threads a c t outside n,
  );
  called = λ b t m. ground (
    arith,
    v.called b t,
    v.called a ticket e,
    v.distinct a b t,
    ap ticket_of e,
    locked-set_phase s.threads a b t outside m,
  );
}

pub Reachable-IsFair : (s : System) → Reachable s → IsFair s
Reachable-IsFair _ starts = start-IsFair
Reachable-IsFair _ (steps a s s' r step) = Step-IsFair a s s' (Reachable-IsFair s r) step

-- In every state that threads can reach from a new lock, by steps in any order, while fewer than
-- `2 ^ 64 - 2` tickets are taken, no other thread holds the lock while one does.
pub Reachable-excludes :
    (s : System) (a b t u : ℕ)
    → Reachable s
    → s.threads a ≡ locked t
    → a ≢ b
    → ¬ (s.threads b ≡ locked u)
Reachable-excludes s a b t u r e ne e' =
    let v = Reachable-IsFair s r in
    let same : u ≡ t = v.called b u e' ∙ sym (v.called a t e) in
    ne (v.distinct a b t (ap ticket_of e) (ap ticket_of e' ∙ ap some same))
