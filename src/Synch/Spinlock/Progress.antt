-- ===== src/Synch/Spinlock/Progress.antt =====
-- A thread that spins gets the lock.
use libhermit_mpk.Prelude.{
  ℕ, zero, suc, ◌+◌, ◌*◌, ◌≤◌, ◌≡◌, ◌≢◌, refl, sym, ap, ◌∙◌, Option, none, some, true, add64, arith,
}
use native.Mathlib.Decide.{ℕ_discrete}
use libhermit_mpk.Synch.Spinlock.{
  fetch_ticket, is_called, unlock, Phase, outside, spinning, locked, System, set_phase, Step,
  fetches, spins, enters, leaves, Reachable, starts, steps,
}
use libhermit_mpk.Synch.Spinlock.Exclusion.{ticket_of, IsFair, Reachable-IsFair}

-- Every ticket that was given out and not yet called off is with a thread.
abbrev HasHolders : System → Type 0
HasHolders s =
    (t : ℕ) → s.lock.dequeue ≤ t → t ≤ s.lock.queue → (a : ℕ) × (ticket_of (s.threads a) ≡ some t)

set_phase-own : (threads : ℕ → Phase) (a : ℕ) (p : Phase) → set_phase threads a p a ≡ p
set_phase-own threads a p = ground arith

set_phase-other :
    (threads : ℕ → Phase) (a b : ℕ) (p : Phase) → a ≢ b → set_phase threads a p b ≡ threads b
set_phase-other threads a b p ne = ground arith

-- A thread with another ticket is another thread.
ticket-ne :
    (threads : ℕ → Phase) (a b : ℕ) (x y : Option ℕ)
    → ticket_of (threads a) ≡ x
    → ticket_of (threads b) ≡ y
    → x ≢ y
    → a ≢ b
ticket-ne threads a b x y e e' ne same = ne (sym e ∙ ap (λ c. ticket_of (threads c)) same ∙ e')

Step-HasHolders : (a : ℕ) (s s' : System) → IsFair s → HasHolders s → Step a s s' → HasHolders s'
unfolding fetch_ticket is_called unlock
Step-HasHolders a s _ v h (fetches e lt) = λ t ge le. elim (ℕ_discrete t (s.lock.queue + 1)) [
  | yes new ↦ (a, ap ticket_of (set_phase-own s.threads a _) ∙ ap some (omega arith))
  | no old ↦
      let (b, own) = h t ge (omega arith) in
      (
        b,
        ap ticket_of (
              set_phase-other s.threads a b _
                (ticket-ne s.threads a b none (some t) (ap ticket_of e) own (λ n. ground arith)))
            ∙ own,
      )
]
Step-HasHolders a s _ v h (spins ticket e) = h
Step-HasHolders a s _ v h (enters ticket e c) = λ t ge le.
    let (b, own) = h t ge le in
    elim (ℕ_discrete a b) [
      | yes same ↦ (
        a,
        ap ticket_of (set_phase-own s.threads a _)
            ∙ sym (ap ticket_of e)
            ∙ ap (λ c. ticket_of (s.threads c)) same
            ∙ own,
      )
      | no ne ↦ (b, ap ticket_of (set_phase-other s.threads a b _ ne) ∙ own)
    ]
Step-HasHolders a s _ v h (leaves ticket e) = λ t ge le.
    let q = v.tickets a ticket (ap ticket_of e) in
    let c = v.called a ticket e in
    let later : s.lock.dequeue + 1 ≤ t = omega (arith, v.bounded, q.0, q.1, ge) in
    let (b, own) = h t (omega arith) le in
    (
      b,
      ap ticket_of (
            set_phase-other s.threads a b _ (
              ticket-ne s.threads a b (some ticket) (some t) (ap ticket_of e) own
                (λ same. ground (arith, c, later))))
          ∙ own,
    )

Reachable-HasHolders : (s : System) → Reachable s → HasHolders s
Reachable-HasHolders _ starts = λ t ge le. absurd (omega arith)
Reachable-HasHolders _ (steps a s s' r step) =
    Step-HasHolders a s s' (Reachable-IsFair s r) (Reachable-HasHolders s r) step

-- A run of a number of steps.
pub data Runs : ℕ → System → System → Type 0 where
  stops : (s : System) → Runs 0 s s
  moves : (n a : ℕ) (s s' s'' : System) → Step a s s' → Runs n s' s'' → Runs (suc n) s s''

-- A run in which a thread gets the lock with its ticket.
pub record Served (a ticket n : ℕ) (s : System) : Type 0 where
  pub count : ℕ
  pub last : System
  pub few : count ≤ n
  pub run : Runs count s last
  pub holds : last.threads a ≡ locked ticket

Served-move :
    (a ticket n b : ℕ) (s s' : System)
    → Step b s s'
    → Served a ticket n s'
    → Served a ticket (suc n) s
Served-move a ticket n b s s' step r = record {
  count = suc r.count;
  last = r.last;
  few = omega (arith, r.few);
  run = moves r.count b s s' r.last step r.run;
  holds = r.holds;
}

Served-mono : (a ticket n m : ℕ) (s : System) → n ≤ m → Served a ticket n s → Served a ticket m s
Served-mono a ticket n m s le r = record {
  count = r.count;
  last = r.last;
  few = omega (arith, r.few);
  run = r.run;
  holds = r.holds;
}

-- The lock is handed on by the thread that holds it.
hand_on :
    (d a b ticket : ℕ) (s : System)
    → Reachable s
    → s.threads a ≡ spinning ticket
    → ticket ≡ s.lock.dequeue + suc d
    → s.threads b ≡ locked s.lock.dequeue
    → ((s' : System)
        → Reachable s'
        → s'.threads a ≡ spinning ticket
        → ticket ≡ s'.lock.dequeue + d
        → Served a ticket (2 * d + 1) s')
    → Served a ticket (suc (2 * d + 1)) s
unfolding unlock
hand_on d a b ticket s r e w own serve =
    let v = Reachable-IsFair s r in
    let t = v.tickets a ticket (ap ticket_of e) in
    let ne : b ≢ a =
      ticket-ne s.threads b a (some s.lock.dequeue) (some ticket) (ap ticket_of own)
        (ap ticket_of e) (λ same. ground (arith, w)) in
    let next : ticket ≡ add64 s.lock.dequeue 1 + d = omega (arith, w, t.0, t.1, v.bounded) in
    let step = leaves s.lock.dequeue own in
    Served-move a ticket (2 * d + 1) b s _ step
      (serve _ (steps b s _ r step) (set_phase-other s.threads b a outside ne ∙ e) next)

-- The thread with the ticket that is called holds the lock, or enters first.
first_leaves :
    (d a b ticket : ℕ) (s : System) (p : Phase)
    → Reachable s
    → s.threads a ≡ spinning ticket
    → ticket ≡ s.lock.dequeue + suc d
    → s.threads b ≡ p
    → ticket_of p ≡ some s.lock.dequeue
    → ((s' : System)
        → Reachable s'
        → s'.threads a ≡ spinning ticket
        → ticket ≡ s'.lock.dequeue + d
        → Served a ticket (2 * d + 1) s')
    → Served a ticket (2 * suc d + 1) s
unfolding is_called
first_leaves d a b ticket s outside r e w phase own serve = absurd (ground arith)
first_leaves d a b ticket s (locked u) r e w phase own serve =
    let same : u ≡ s.lock.dequeue = ground arith in
    Served-mono a ticket (suc (2 * d + 1)) (2 * suc d + 1) s (omega arith)
      (hand_on d a b ticket s r e w (phase ∙ ap locked same) serve)
first_leaves d a b ticket s (spinning u) r e w phase own serve =
    let same : u ≡ s.lock.dequeue = ground arith in
    let c : is_called s.lock u ≡ true = ground arith in
    let ne : b ≢ a =
      ticket-ne s.threads b a (some s.lock.dequeue) (some ticket) (ap ticket_of phase ∙ own)
        (ap ticket_of e) (λ eq. ground (arith, w)) in
    let step = enters u phase c in
    Served-mono a ticket (suc (suc (2 * d + 1))) (2 * suc d + 1) s (omega arith) (
      Served-move a ticket (suc (2 * d + 1)) b s _ step (
        hand_on d a b ticket _ (steps b s _ r step)
          (set_phase-other s.threads b a (locked u) ne ∙ e) w
          (set_phase-own s.threads b (locked u) ∙ ap locked same) serve))

-- In every state that threads can reach, by steps in any order, while fewer than `2 ^ 64 - 2`
-- tickets are taken, a thread that spins can get the lock: if `d` tickets come before its own, there
-- is a run of at most `2 * d + 1` steps after which it holds the lock with its ticket.
pub Reachable-Served :
    (d a ticket : ℕ) (s : System)
    → Reachable s
    → s.threads a ≡ spinning ticket
    → ticket ≡ s.lock.dequeue + d
    → Served a ticket (2 * d + 1) s
unfolding is_called
Reachable-Served zero a ticket s r e w =
    let c : is_called s.lock ticket ≡ true = ground arith in
    Served-mono a ticket 1 (2 * 0 + 1) s (omega arith) (
      Served-move a ticket 0 a s _ (enters ticket e c) (record {
        count = 0;
        last = _;
        few = omega arith;
        run = stops _;
        holds = set_phase-own s.threads a (locked ticket);
      }))
Reachable-Served (suc d) a ticket s r e w =
    let v = Reachable-IsFair s r in
    let t = v.tickets a ticket (ap ticket_of e) in
    let (b, own) =
      Reachable-HasHolders s r s.lock.dequeue (omega arith) (omega (arith, t.0, t.1)) in
    first_leaves d a b ticket s (s.threads b) r e w refl own (Reachable-Served d a ticket)
