-- ===== src/Scheduler/PriorityTaskQueue/Laws.antt =====
-- `push` and the three ways to pop act on the lists that the queue stands for.
use libhermit_mpk.Prelude.{bit_or}
use libhermit_mpk.Prelude.{
  ℕ, ◌^◌, ◌<◌, ◌≡◌, ◌≢◌, refl, sym, ap, ◌∙◌, true, false, Option, none, some, List, [], ◌∷◌, ◌++◌,
  ◌==◌, ltb, arith, if◌then◌else◌,
}
use native.Mathlib.Decide.{ℕ_discrete}
use libhermit_mpk.Scheduler.Task.{Tasks, no_priorities, update}
use libhermit_mpk.Scheduler.PriorityTaskQueue.{PriorityTaskQueue, link_last, head_after, push}
use libhermit_mpk.Scheduler.PriorityTaskQueue.Chain.{
  has, has-append, Chain, Chain-frame, Chain-snoc, tail-mem,
}
use libhermit_mpk.Scheduler.PriorityTaskQueue.Queues.{Queues, Marks, IsQueues, Marks-set}

-- Only links differ.
abbrev pub SameTasks : Tasks → Tasks → Type 0
SameTasks ts us = (a : ℕ) → us a ≡ record (ts a) { next = (us a).next; prev = (us a).prev }

-- A chain that is not empty has a tail.
has_tail :
    (ts : Tasks) (before head : Option ℕ) (x : ℕ) (xs : List ℕ)
    → ¬ Chain ts before head none (x ∷ xs)
has_tail ts before head x [] c = cc
has_tail ts before head x (y ∷ ys) c = has_tail ts (some x) (ts x).next y ys c.3

abbrev head_or : Option ℕ → Option ℕ → ℕ → Option ℕ
head_or none head t = some t
head_or (some l) head t = head

link_last-Chain :
    (ts : Tasks) (t : ℕ) (head tail : Option ℕ) (xs : List ℕ)
    → has t xs ≡ false
    → Chain ts none head tail xs
    → Chain (link_last ts t tail) none (head_or tail head t) (some t) (xs ++ t ∷ [])
link_last-Chain ts t head none [] out c = ground arith
link_last-Chain ts t head (some l) [] out c = absurd (ground arith)
link_last-Chain ts t head none (x ∷ xs) out c = absurd (has_tail ts none head x xs c)
link_last-Chain ts t head (some l) (x ∷ xs) out c = Chain-snoc ts t none head l x xs out c

-- The links that `push` writes are those of tasks of the queue's own priority.
link_last-outside :
    (ts : Tasks) (t a : ℕ) (head tail : Option ℕ) (xs : List ℕ)
    → Chain ts none head tail xs
    → has a xs ≡ false
    → a ≢ t
    → link_last ts t tail a ≡ ts a
link_last-outside ts t a head none xs c out ne = ground arith
link_last-outside ts t a head (some l) [] c out ne = absurd (ground arith)
link_last-outside ts t a head (some l) (x ∷ xs) c out ne =
    ground (arith, tail-mem ts none head l x xs c)

pub link_last-SameTasks :
    (ts : Tasks) (t : ℕ) (tail : Option ℕ) → SameTasks ts (link_last ts t tail)
link_last-SameTasks ts t none a = ground arith
link_last-SameTasks ts t (some l) a = ground arith

-- A task that waits nowhere is put at the end of the list of its priority.
abbrev pub Pushes : Tasks → Queues → ℕ → Option (Tasks × PriorityTaskQueue) → Type 0
Pushes ts lists t none = ⊥
Pushes ts lists t (some (us, q)) =
    IsQueues us q (update lists (ts t).prio (lists (ts t).prio ++ t ∷ [])) × SameTasks ts us

pub ==_refl : (a : ℕ) → (a == a) ≡ true
==_refl a = ground arith

pub update_self {ℓ} : {A : Type ℓ} (f : ℕ → A) (i : ℕ) (a : A) → update f i a i ≡ a
update_self f i a = rw (==_refl i) refl

pub ==_ne : (a b : ℕ) → a ≢ b → (a == b) ≡ false
==_ne a b ne = ground arith

pub ltb_lt : (a b : ℕ) → a < b → ltb a b ≡ true
ltb_lt a b lt = ground arith

Marks-snoc :
    (bitmap i : ℕ) (lists : Queues) (xs : List ℕ) (t : ℕ)
    → i < no_priorities
    → Marks bitmap lists
    → Marks (bit_or bitmap (2 ^ i)) (update lists i (xs ++ t ∷ []))
Marks-snoc bitmap i lists [] t lt m = Marks-set bitmap i lists t [] lt m
Marks-snoc bitmap i lists (x ∷ xs) t lt m = Marks-set bitmap i lists x (xs ++ t ∷ []) lt m

-- A task of a valid priority can be pushed.
pub push-some :
    (ts : Tasks) (q : PriorityTaskQueue) (t : ℕ)
    → (ts t).prio < no_priorities
    → (q' : PriorityTaskQueue) × (push ts q t ≡ some (link_last ts t (q.tails (ts t).prio), q'))
unfolding push
push-some ts q t lt = (
  record {
    heads = head_after q (ts t).prio t (q.tails (ts t).prio);
    tails = update q.tails (ts t).prio (some t);
    prio_bitmap = bit_or q.prio_bitmap (2 ^ (ts t).prio);
  },
  rw (ltb_lt (ts t).prio no_priorities lt) refl,
)

module _ (ts : Tasks) (q : PriorityTaskQueue) (lists : Queues) (t : ℕ) (v : IsQueues ts q lists)
    (lt : (ts t).prio < no_priorities) (out : has t (lists (ts t).prio) ≡ false) where
  abbrev i : ℕ
  i = (ts t).prio

  heads-head_after :
      (j : ℕ) (tail : Option ℕ)
      → head_after q i t tail j ≡ (if i == j then head_or tail (q.heads i) t else q.heads j)
  heads-head_after j none = ground arith
  heads-head_after j (some l) = ground arith

  -- A task of another priority keeps its links.
  push_other : (j a : ℕ) → i ≢ j → has a (lists j) ≡ true → link_last ts t (q.tails i) a ≡ ts a
  push_other j a ne m =
      link_last-outside ts t a (q.heads i) (q.tails i) (lists i) (v.chains i)
        (ground (arith, v.prios i a, v.prios j a m)) (ground (arith, v.prios j a m))

  push_chains :
      (j : ℕ)
      → Chain
          (link_last ts t (q.tails i))
          none
          (head_after q i t (q.tails i) j)
          (update q.tails i (some t) j)
          (update lists i (lists i ++ t ∷ []) j)
  push_chains j = rw (heads-head_after j (q.tails i)) (elim (ℕ_discrete i j) [
    | yes e ↦
        rw (sym e, ==_refl i)
          (link_last-Chain ts t (q.heads i) (q.tails i) (lists i) out (v.chains i))
    | no ne ↦ rw (==_ne i j ne) (
        Chain-frame ts (link_last ts t (q.tails i)) none (q.heads j) (q.tails j) (lists j)
          (λ a m. push_other j a ne m) (v.chains j))
  ])

  push_prios :
      (j a : ℕ)
      → has a (update lists i (lists i ++ t ∷ []) j) ≡ true
      → (link_last ts t (q.tails i) a).prio ≡ j
  push_prios j a m =
      ap (λ r. r.prio) (link_last-SameTasks ts t (q.tails i) a)
      ∙ ground (arith, v.prios j a, v.prios i a, has-append a (lists i) (t ∷ []))

  push-IsQueues :
      IsQueues
        (link_last ts t (q.tails i))
        (record {
          heads = head_after q i t (q.tails i);
          tails = update q.tails i (some t);
          prio_bitmap = bit_or q.prio_bitmap (2 ^ i);
        })
        (update lists i (lists i ++ t ∷ []))
  push-IsQueues = record {
    chains = push_chains;
    marks = Marks-snoc q.prio_bitmap i lists (lists i) t lt v.marks;
    prios = push_prios;
    in_range = λ j ge. ground (arith, v.in_range j ge);
  }

-- `push` puts a task of a priority below 31 that is not in the list of its priority at the end of that
-- list, writes nothing but links, and leaves the queue in order, whatever it held.
pub push-Pushes :
    (ts : Tasks) (q : PriorityTaskQueue) (lists : Queues) (t : ℕ)
    → IsQueues ts q lists
    → (ts t).prio < no_priorities
    → has t (lists (ts t).prio) ≡ false
    → Pushes ts lists t (push ts q t)
unfolding push
push-Pushes ts q lists t v lt out =
    rw (ltb_lt (ts t).prio no_priorities lt)
      (push-IsQueues ts q lists t v lt out, link_last-SameTasks ts t (q.tails (ts t).prio))

-- The store and the queue after a push.
pub pushed :
    (ts : Tasks) (lists : Queues) (t : ℕ) (r : Option (Tasks × PriorityTaskQueue))
    → Pushes ts lists t r
    → (us : Tasks) × (q : PriorityTaskQueue) × (r ≡ some (us, q))
      × IsQueues us q (update lists (ts t).prio (lists (ts t).prio ++ t ∷ []))
      × SameTasks ts us
pushed ts lists t none h = absurd h
pushed ts lists t (some (us, q)) h = (us, q, refl, h.0, h.1)
