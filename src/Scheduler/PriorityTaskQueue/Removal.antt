-- ===== src/Scheduler/PriorityTaskQueue/Removal.antt =====
-- `remove` of a task that is not the last of its list takes exactly that task out.
use libhermit_mpk.Prelude.{
  ◌⊎◌, ℕ, zero, suc, ◌<◌, ◌≡◌, ◌≢◌, refl, sym, ap, ◌∙◌, subst, Bool, true, false, Option, none,
  some, List, [], ◌∷◌, ◌++◌, ◌==◌, arith, if◌then◌else◌, length, Bool-cases, inl, inr,
}
use native.Mathlib.Decide.{ℕ_discrete, dec_lt}
use libhermit_mpk.Prelude.TestBit.{bit}
use libhermit_mpk.Scheduler.Task.{Tasks, no_priorities, update}
use libhermit_mpk.Scheduler.PriorityTaskQueue.{PriorityTaskQueue, meets, remove, drop_head, is_task}
use libhermit_mpk.Scheduler.PriorityTaskQueue.Chain.{has, has-append, Chain, Chain-frame}
use libhermit_mpk.Scheduler.PriorityTaskQueue.Queues.{Queues, IsQueues, filled}
use libhermit_mpk.Scheduler.PriorityTaskQueue.Laws.{SameTasks, ==_refl, ==_ne, ltb_lt}
use libhermit_mpk.Scheduler.PriorityTaskQueue.Unlinks.{
  head_of, prev-mem, unlinked, unlinked-other, Chain-unlink, has-removed,
}

-- The walk meets the task.
meets-Chain :
    (fuel : ℕ) (ts : Tasks) (before head tail : Option ℕ) (xs : List ℕ) (t : ℕ) (rest : List ℕ)
    → Chain ts before head tail (xs ++ t ∷ rest)
    → length xs < fuel
    → meets fuel ts t head ≡ some true
unfolding meets
meets-Chain zero ts before head tail xs t rest c lt = absurd (omega arith)
meets-Chain (suc fuel) ts before head tail [] t rest c lt = rw (c.0, ==_refl t) refl
meets-Chain (suc fuel) ts before head tail (x ∷ xs) t rest c lt =
    rw (c.0, meets-Chain fuel ts (some x) (ts x).next tail xs t rest c.3 (omega arith))
      (both (x == t))
  where
    both : (b : Bool) → (if b then some true else some true) ≡ some true
    both true = refl
    both false = refl

next_lem :
    (ts : Tasks) (before head tail : Option ℕ) (xs : List ℕ) (t y : ℕ) (ys : List ℕ)
    → Chain ts before head tail (xs ++ t ∷ y ∷ ys)
    → (ts t).next ≡ some y
next_lem ts before head tail [] t y ys c = c.3.0
next_lem ts before head tail (x ∷ xs) t y ys c = next_lem ts (some x) (ts x).next tail xs t y ys c.3

-- The task in front is in the list.
prev-NotIn :
    (ts : Tasks) (head tail : Option ℕ) (xs : List ℕ) (t : ℕ) (rest : List ℕ) (a : ℕ)
    → Chain ts none head tail (xs ++ t ∷ rest)
    → has a xs ≡ false
    → (ts t).prev ≢ some a
prev-NotIn ts head tail [] t rest a c out e = ground arith
prev-NotIn ts head tail (x ∷ xs) t rest a c out e =
    let (l, pe, lm) = prev-mem ts none head tail x xs t rest c in ground (arith, sym pe ∙ e)

unlinked-SameTasks : (ts : Tasks) (p : Option ℕ) (y : ℕ) → SameTasks ts (unlinked ts p y)
unlinked-SameTasks ts none y a = ground arith
unlinked-SameTasks ts (some l) y a = ground arith

-- A task that stands in the middle of a list is there once.
has-middle :
    (ts : Tasks) (before head tail : Option ℕ) (xs : List ℕ) (t : ℕ) (rest : List ℕ)
    → Chain ts before head tail (xs ++ t ∷ rest)
    → (has t xs ≡ false) × (has t rest ≡ false)
has-middle ts before head tail [] t rest c = (refl, c.2)
has-middle ts before head tail (x ∷ xs) t rest c =
    let h = has-middle ts (some x) (ts x).next tail xs t rest c.3 in
    (ground (arith, has-append x xs (t ∷ rest), c.2, h.0), h.1)

filled-middle : (xs : List ℕ) (x : ℕ) (ys : List ℕ) → filled (xs ++ x ∷ ys) ≡ 1
filled-middle [] x ys = refl
filled-middle (z ∷ zs) x ys = refl

-- The list starts with the task, or with another one.
head-cases :
    (ts : Tasks) (before head tail : Option ℕ) (xs : List ℕ) (t y : ℕ) (ys : List ℕ)
    → Chain ts before head tail (xs ++ t ∷ y ∷ ys)
    → ((head ≡ some t) × (head_of xs head y ≡ some y))
      ⊎ ((is_task head t ≡ false) × (head_of xs head y ≡ head))
head-cases ts before head tail [] t y ys c = inl (c.0, refl)
head-cases ts before head tail (x ∷ xs) t y ys c =
    inr (rw c.0 (==_ne x t (λ same. ground (arith, has-append x xs (t ∷ y ∷ ys), c.2))), refl)

abbrev pub Removes : Tasks → Queues → ℕ → List ℕ → Option (Tasks × PriorityTaskQueue) → Type 0
Removes ts lists t rest none = ⊥
Removes ts lists t rest (some (us, q)) =
    IsQueues us q (update lists (ts t).prio rest) × SameTasks ts us

module _ (ts : Tasks) (q : PriorityTaskQueue) (lists : Queues) (t y : ℕ) (xs ys : List ℕ)
    (v : IsQueues ts q lists) (e : lists (ts t).prio ≡ xs ++ t ∷ y ∷ ys) where
  abbrev i : ℕ
  i = (ts t).prio

  abbrev us : Tasks
  us = unlinked ts (ts t).prev y

  chain : Chain ts none (q.heads i) (q.tails i) (xs ++ t ∷ y ∷ ys)
  chain = subst (λ l. Chain ts none (q.heads i) (q.tails i) l) e (v.chains i)

  own : Chain us none (head_of xs (q.heads i) y) (q.tails i) (xs ++ y ∷ ys)
  own = Chain-unlink ts none (q.heads i) (q.tails i) xs t y ys (λ a m n. ground arith) chain

  out_lem : (a j : ℕ) → i ≢ j → has a (lists j) ≡ true → has a (xs ++ t ∷ y ∷ ys) ≡ false
  out_lem a j ne m = elim (Bool-cases (has a (xs ++ t ∷ y ∷ ys))) [
    | inr out ↦ out
    | inl within ↦ absurd (ne (sym (v.prios i a (ap (λ l. has a l) e ∙ within)) ∙ v.prios j a m))
  ]

  -- A task of another list is not touched.
  other : (j a : ℕ) → i ≢ j → has a (lists j) ≡ true → us a ≡ ts a
  other j a ne m =
      let out : has a (xs ++ t ∷ y ∷ ys) ≡ false = out_lem a j ne m in
      let gone = has-removed a xs t (y ∷ ys) out in
      unlinked-other ts (ts t).prev y a
        (prev-NotIn ts (q.heads i) (q.tails i) xs t (y ∷ ys) a chain gone.1)
        (ground (arith, gone.2))

  in_range : i < no_priorities
  in_range = elim (dec_lt i no_priorities) [
    | yes lt ↦ lt
    | no ge ↦
        absurd (
          omega
            (arith, filled-middle xs t (y ∷ ys), ap filled (sym e ∙ v.in_range i (omega arith))))
  ]

  removed-filled : (j : ℕ) → filled (update lists i (xs ++ y ∷ ys) j) ≡ filled (lists j)
  removed-filled j = elim (ℕ_discrete i j) [
    | yes same ↦
        rw (sym same, ==_refl i)
          (filled-middle xs y ys ∙ sym (filled-middle xs t (y ∷ ys)) ∙ sym (ap filled e))
    | no ne ↦ rw (==_ne i j ne) refl
  ]

  removed-has : (j a : ℕ) → has a (update lists i (xs ++ y ∷ ys) j) ≡ true → has a (lists j) ≡ true
  removed-has j a m = elim (ℕ_discrete i j) [
    | yes same ↦
        let m' : has a (xs ++ y ∷ ys) ≡ true = ground arith in
        subst (λ (x : ℕ). has a (lists x) ≡ true) same
          (ap (λ l. has a l) e
            ∙ ground (arith, has-append a xs (y ∷ ys), has-append a xs (t ∷ y ∷ ys)))
    | no ne ↦ ground arith
  ]

  removed-chains :
      (j : ℕ)
      → Chain us none
          (if i == j then head_of xs (q.heads i) y else q.heads j)
          (q.tails j)
          (update lists i (xs ++ y ∷ ys) j)
  removed-chains j = elim (ℕ_discrete i j) [
    | yes same ↦ rw (sym same, ==_refl i) own
    | no ne ↦ rw (==_ne i j ne) (
        Chain-frame ts us none (q.heads j) (q.tails j) (lists j) (λ a m. other j a ne m)
          (v.chains j))
  ]

  removed-IsQueues :
      (q' : PriorityTaskQueue)
      → q'.prio_bitmap ≡ q.prio_bitmap
      → q'.tails ≡ q.tails
      → ((j : ℕ) → q'.heads j ≡ (if i == j then head_of xs (q.heads i) y else q.heads j))
      → IsQueues us q' (update lists i (xs ++ y ∷ ys))
  removed-IsQueues q' bitmap tails heads = record {
    chains = λ j. rw (heads j, tails) (removed-chains j);
    marks = record {
      word = rw bitmap v.marks.word;
      bits = λ j lt. ap (λ b. bit b j) bitmap ∙ v.marks.bits j lt ∙ sym (removed-filled j);
    };
    prios = λ j a m.
        ap (λ r. r.prio) (unlinked-SameTasks ts (ts t).prev y a) ∙ v.prios j a (removed-has j a m);
    in_range = λ j ge. ground (arith, in_range, v.in_range j);
  }

  us-t : us t ≡ ts t
  us-t =
      let h = has-middle ts none (q.heads i) (q.tails i) xs t (y ∷ ys) chain in
      unlinked-other ts (ts t).prev y t
        (prev-NotIn ts (q.heads i) (q.tails i) xs t (y ∷ ys) t chain h.0) (ground (arith, h.1))

  dropped : IsQueues us (drop_head us q i t) (update lists i (xs ++ y ∷ ys))
  dropped = elim (head-cases ts none (q.heads i) (q.tails i) xs t y ys chain) [
    | inl (first, head) ↦
        let next : (us t).next ≡ some y =
          ap (λ r. r.next) us-t ∙ next_lem ts none (q.heads i) (q.tails i) xs t y ys chain in
        rw (first, ==_refl t, next)
          (removed-IsQueues (record q { heads = update q.heads i (some y) }) refl refl
            (λ j. rw head refl))
    | inr (later, head) ↦ rw later (removed-IsQueues q refl refl (λ j. rw head (same_head j)))
  ]
    where
      same_head : (j : ℕ) → q.heads j ≡ (if i == j then q.heads i else q.heads j)
      same_head j = elim (ℕ_discrete i j) [
        | yes same ↦ rw (sym same, ==_refl i) refl
        | no ne ↦ rw (==_ne i j ne) refl
      ]

-- `remove` of a queued task that is not the last of its list takes exactly this task out of the
-- list of its priority, writes nothing but links, and leaves the queue in order. The fuel must be
-- above the number of tasks in front of it.
pub remove-Removes :
    (fuel : ℕ) (ts : Tasks) (q : PriorityTaskQueue) (lists : Queues) (t y : ℕ) (xs ys : List ℕ)
    → IsQueues ts q lists
    → lists (ts t).prio ≡ xs ++ t ∷ y ∷ ys
    → length xs < fuel
    → Removes ts lists t (xs ++ y ∷ ys) (remove fuel ts q t)
unfolding remove
remove-Removes fuel ts q lists t y xs ys v e lt =
    let c = chain ts q lists t y xs ys v e in
    rw
      (
        ltb_lt (ts t).prio no_priorities (in_range ts q lists t y xs ys v e),
        meets-Chain fuel ts none (q.heads (ts t).prio) (q.tails (ts t).prio) xs t (y ∷ ys) c lt,
        next_lem ts none (q.heads (ts t).prio) (q.tails (ts t).prio) xs t y ys c,
      )
      (dropped ts q lists t y xs ys v e, unlinked-SameTasks ts (ts t).prev y)
