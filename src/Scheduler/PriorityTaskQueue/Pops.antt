-- ===== src/Scheduler/PriorityTaskQueue/Pops.antt =====
-- `pop`, `pop_with_prio` and `pop_from_queue` act on the lists that the queue stands for.
use libhermit_mpk.Prelude.{
  subst, ℕ, ◌≤◌, ◌<◌, ◌≡◌, ◌≢◌, refl, sym, ap, ◌∙◌, true, false, Option, none, some, List, [], ◌∷◌,
  leb, arith, if◌then◌else◌,
}
use native.Mathlib.Decide.{dec_le, ℕ_discrete}
use libhermit_mpk.Scheduler.Task.{Tasks, no_priorities, update, set_prev, set_links}
use libhermit_mpk.Scheduler.PriorityTaskQueue.{
  is_task, PriorityTaskQueue, msb, cut_prev, without_head, pop_from_queue, pop, pop_with_prio,
}
use libhermit_mpk.Scheduler.PriorityTaskQueue.Chain.{has, Chain, Chain-frame, Chain-uncons}
use libhermit_mpk.Scheduler.PriorityTaskQueue.Queues.{
  Queues, Marks, IsQueues, Marks-clear, Highest, empty, at, msb-Highest, filled,
}
use libhermit_mpk.Scheduler.PriorityTaskQueue.Laws.{update_self, SameTasks, ==_refl, ==_ne, ltb_lt}

-- What a pop from priority `prio` on gives: the oldest task of the highest priority, without
-- links, or nothing if all those lists are empty.
pub data Popped (ts : Tasks) (lists : Queues) (prio : ℕ)
    : Option (Option ℕ × Tasks × PriorityTaskQueue) → Type 0 where
  nothing :
      (q : PriorityTaskQueue)
      → ((j : ℕ) → prio ≤ j → lists j ≡ [])
      → IsQueues ts q lists
      → Popped ts lists prio (some (none, ts, q))
  taken :
      (i t : ℕ) (rest : List ℕ) (us : Tasks) (q : PriorityTaskQueue)
      → prio ≤ i
      → ((j : ℕ) → i < j → lists j ≡ [])
      → lists i ≡ t ∷ rest
      → IsQueues us q (update lists i rest)
      → SameTasks ts us
      → (us t).next ≡ none
      → (us t).prev ≡ none
      → Popped ts lists prio (some (some t, us, q))

take_links-SameTasks :
    (ts : Tasks) (t : ℕ) (n : Option ℕ) → SameTasks ts (set_links (cut_prev ts n) t none none)
take_links-SameTasks ts t none a = ground arith
take_links-SameTasks ts t (some n) a = ground arith

take_links-other :
    (ts : Tasks) (t a : ℕ) (n : Option ℕ)
    → a ≢ t
    → n ≢ some a
    → set_links (cut_prev ts n) t none none a ≡ ts a
take_links-other ts t a none ne other = ground arith
take_links-other ts t a (some n) ne other = ground (arith, λ (e : n ≡ a). other (ap some e))

leb_le : (a b : ℕ) → a ≤ b → leb a b ≡ true
leb_le a b le = ground arith

leb_gt : (a b : ℕ) → b < a → leb a b ≡ false
leb_gt a b lt = ground arith

module _ (ts : Tasks) (q : PriorityTaskQueue) (lists : Queues) (v : IsQueues ts q lists) (i t : ℕ)
    (lt : i < no_priorities) where
  chain : (rest : List ℕ) → lists i ≡ t ∷ rest → Chain ts none (q.heads i) (q.tails i) (t ∷ rest)
  chain rest e = subst (λ xs. Chain ts none (q.heads i) (q.tails i) xs) e (v.chains i)

  take_chains-own :
      (rest : List ℕ) (n : Option ℕ)
      → (ts t).next ≡ n
      → Chain ts none (q.heads i) (q.tails i) (t ∷ rest)
      → Chain
          (set_links (cut_prev ts n) t none none)
          none
          ((without_head q i n).heads i)
          ((without_head q i n).tails i)
          rest
  take_chains-own [] none e c = ground arith
  take_chains-own [] (some n) e c = absurd (ground arith)
  take_chains-own (y ∷ ys) none e c = absurd (ground arith)
  take_chains-own (y ∷ ys) (some n) e c =
      subst
        (λ m.
          Chain (set_links (set_prev ts m none) t none none) none (update q.heads i (some m) i)
            (q.tails i) (y ∷ ys))
        (sym next_lem)
        (subst (λ h. Chain (set_links (set_prev ts y none) t none none) none h (q.tails i) (y ∷ ys))
          (sym (update_self q.heads i (some y)))
          (Chain-uncons ts none (q.heads i) (q.tails i) t y ys c))
    where
      next_lem : n ≡ y
      next_lem = ground arith

  next-has :
      (rest : List ℕ) (a : ℕ)
      → Chain ts none (q.heads i) (q.tails i) (t ∷ rest)
      → (ts t).next ≡ some a
      → has a rest ≡ true
  next-has [] a c e = absurd (ground arith)
  next-has (y ∷ ys) a c e = ground arith

  has-list :
      (rest : List ℕ) (a : ℕ) → lists i ≡ t ∷ rest → has a (t ∷ rest) ≡ true → (ts a).prio ≡ i
  has-list rest a e m = v.prios i a (ap (λ xs. has a xs) e ∙ m)

  -- The other lists are not touched.
  take_links-outside :
      (rest : List ℕ) (n : Option ℕ) (j a : ℕ)
      → (ts t).next ≡ n
      → lists i ≡ t ∷ rest
      → i ≢ j
      → has a (lists j) ≡ true
      → set_links (cut_prev ts n) t none none a ≡ ts a
  take_links-outside rest n j a en e ne m =
      take_links-other ts t a n (ground (arith, v.prios j a m, has-list rest t e)) (λ same.
        ground
          (arith, v.prios j a m, has-list rest a e, next-has rest a (chain rest e) (en ∙ same)))

  heads-without_head : (n : Option ℕ) (j : ℕ) → i ≢ j → (without_head q i n).heads j ≡ q.heads j
  heads-without_head none j ne = ground arith
  heads-without_head (some n) j ne = ground arith

  tails-without_head : (n : Option ℕ) (j : ℕ) → i ≢ j → (without_head q i n).tails j ≡ q.tails j
  tails-without_head none j ne = ground arith
  tails-without_head (some n) j ne = ground arith

  take_chains :
      (rest : List ℕ) (n : Option ℕ) (j : ℕ)
      → (ts t).next ≡ n
      → lists i ≡ t ∷ rest
      → Chain
          (set_links (cut_prev ts n) t none none)
          none
          ((without_head q i n).heads j)
          ((without_head q i n).tails j)
          (update lists i rest j)
  take_chains rest n j en e = elim (ℕ_discrete i j) [
    | yes same ↦ rw (sym same, ==_refl i) (take_chains-own rest n en (chain rest e))
    | no ne ↦
        rw (==_ne i j ne, heads-without_head n j ne, tails-without_head n j ne)
          (Chain-frame ts (set_links (cut_prev ts n) t none none) none (q.heads j) (q.tails j)
            (lists j) (λ a m. take_links-outside rest n j a en e ne m) (v.chains j))
  ]

  take-Marks :
      (rest : List ℕ) (n : Option ℕ)
      → (ts t).next ≡ n
      → lists i ≡ t ∷ rest
      → Marks (without_head q i n).prio_bitmap (update lists i rest)
  take-Marks [] none en e = Marks-clear q.prio_bitmap i lists lt v.marks
  take-Marks [] (some n) en e = absurd (ground (arith, next-has [] n (chain [] e) en))
  take-Marks (y ∷ ys) none en e = absurd (ground (arith, (chain (y ∷ ys) e).3.0))
  take-Marks (y ∷ ys) (some n) en e = record {
    word = v.marks.word;
    bits = λ j hj. v.marks.bits j hj ∙ ground (arith, ap filled e);
  }

  take_prios :
      (rest : List ℕ) (j a : ℕ)
      → lists i ≡ t ∷ rest
      → has a (update lists i rest j) ≡ true
      → (ts a).prio ≡ j
  take_prios rest j a e m = ground (arith, v.prios j a, has-list rest a e)

  take-IsQueues :
      (rest : List ℕ) (n : Option ℕ)
      → (ts t).next ≡ n
      → lists i ≡ t ∷ rest
      → IsQueues (set_links (cut_prev ts n) t none none) (without_head q i n) (update lists i rest)
  take-IsQueues rest n en e = record {
    chains = λ j. take_chains rest n j en e;
    marks = take-Marks rest n en e;
    prios = λ j a m. ap (λ r. r.prio) (take_links-SameTasks ts t n a) ∙ take_prios rest j a e m;
    in_range = λ j ge. ground (arith, v.in_range j ge);
  }

-- The head of a chain is not linked to itself.
next-not_task :
    (ts : Tasks) (tail n : Option ℕ) (t : ℕ) (rest : List ℕ)
    → has t rest ≡ false
    → Chain ts (some t) n tail rest
    → is_task n t ≡ false
next-not_task ts tail n t [] out c = ap (λ m. is_task m t) c.0
next-not_task ts tail n t (y ∷ ys) out c = ap (λ m. is_task m t) c.0 ∙ ground arith

module _ (ts : Tasks) (q : PriorityTaskQueue) (lists : Queues) (v : IsQueues ts q lists) where
  pop_from_queue-Popped :
      (i t : ℕ) (rest : List ℕ) (prio : ℕ)
      → i < no_priorities
      → lists i ≡ t ∷ rest
      → ((j : ℕ) → i < j → lists j ≡ [])
      → prio ≤ i
      → Popped ts lists prio (pop_from_queue ts q i)
  unfolding pop_from_queue
  pop_from_queue-Popped i t rest prio lt e above le =
      let c = chain ts q lists v i t lt rest e in
      rw (ltb_lt i no_priorities lt, c.0, next-not_task ts (q.tails i) (ts t).next t rest c.2 c.3)
        (taken i t rest (set_links (cut_prev ts (ts t).next) t none none)
          (without_head q i (ts t).next) le above e
          (take-IsQueues ts q lists v i t lt rest (ts t).next refl e)
          (take_links-SameTasks ts t (ts t).next)
          (ap (λ r. r.next) (update_self (cut_prev ts (ts t).next) t _))
          (ap (λ r. r.prev) (update_self (cut_prev ts (ts t).next) t _)))

  pop_at :
      (top : Option ℕ)
      → Highest lists top
      → Popped ts lists 0 (elim top [ none ↦ some (none, ts, q) | some i ↦ pop_from_queue ts q i ])
  pop_at none (empty all) = nothing q (λ j _. all j) v
  pop_at (some i) (at _ t rest lt e above) =
      pop_from_queue-Popped i t rest 0 lt e above (omega arith)

  pop_with_prio_at :
      (top : Option ℕ) (prio : ℕ)
      → Highest lists top
      → Popped ts lists prio (elim top [
        | none ↦ some (none, ts, q)
        | some i ↦ if leb prio i then pop_from_queue ts q i else some (none, ts, q)
      ])
  pop_with_prio_at none prio (empty all) = nothing q (λ j _. all j) v
  pop_with_prio_at (some i) prio (at _ t rest lt e above) = elim (dec_le prio i) [
    | yes le ↦ rw (leb_le prio i le) (pop_from_queue-Popped i t rest prio lt e above le)
    | no gt ↦ rw (leb_gt prio i (omega arith)) (nothing q (λ j le. above j (omega arith)) v)
  ]

-- `pop` takes the oldest task of the highest priority that has one, cuts its links and leaves all
-- other lists; it gives nothing only if no task is queued. It never meets a bad index.
pub pop-Popped :
    (ts : Tasks) (q : PriorityTaskQueue) (lists : Queues)
    → IsQueues ts q lists
    → Popped ts lists 0 (pop ts q)
unfolding pop
pop-Popped ts q lists v =
    pop_at ts q lists v (msb q.prio_bitmap) (msb-Highest q.prio_bitmap lists v.marks v.in_range)

-- `pop_with_prio` takes the oldest task of the highest priority that has one, if that priority is
-- `prio` or above, and nothing if no task of such a priority is queued.
pub pop_with_prio-Popped :
    (ts : Tasks) (q : PriorityTaskQueue) (lists : Queues) (prio : ℕ)
    → IsQueues ts q lists
    → Popped ts lists prio (pop_with_prio ts q prio)
unfolding pop_with_prio
pop_with_prio-Popped ts q lists prio v =
    pop_with_prio_at ts q lists v (msb q.prio_bitmap) prio
      (msb-Highest q.prio_bitmap lists v.marks v.in_range)
