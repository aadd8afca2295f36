-- ===== src/Scheduler/BlockedTaskQueue/Order.antt =====
-- Where `add` puts a task, and that the list stays in order.
use libhermit_mpk.Prelude.{
  ℕ, ◌≡◌, ◌≢◌, refl, sym, ap, ◌∙◌, Bool, true, false, not, ◌&&◌, Option, none, some, is_some, List,
  [], ◌∷◌, ◌++◌, if◌then◌else◌, arith, Bool-cases, inl, inr,
}
use libhermit_mpk.Scheduler.Task.{TaskStatus, BlockedTask}
use libhermit_mpk.Scheduler.Kernel.{Kernel}
use libhermit_mpk.Scheduler.BlockedTaskQueue.{blocked, waits_longer, insert, push_back, add}
use libhermit_mpk.Scheduler.BlockedTaskQueue.Elapsed.{not_later, waits-not_later, sorted_from}

abbrev pub is_empty : List BlockedTask → Bool
is_empty [] = true
is_empty (node ∷ rest) = false

-- No entry of the list is later than a time; all entries are.
abbrev pub all_by : Option ℕ → List BlockedTask → Bool
all_by time [] = true
all_by time (node ∷ rest) = not_later node.wakeup_time time && all_by time rest

abbrev pub all_after : Option ℕ → List BlockedTask → Bool
all_after time [] = true
all_after time (node ∷ rest) = not (not_later node.wakeup_time time) && all_after time rest

-- The new entry stands behind all that are not later, and in front of all that are.
pub record Placed (list : List BlockedTask) (new : BlockedTask) (list' : List BlockedTask)
    (before after : List BlockedTask) : Type 0 where
  pub whole : list ≡ before ++ after
  pub placed : list' ≡ before ++ new ∷ after
  pub by_time : all_by new.wakeup_time before ≡ true
  pub after_time : all_after new.wakeup_time after ≡ true

abbrev pub Inserted : Bool → List BlockedTask → BlockedTask → Bool × List BlockedTask → Type 0
Inserted first list new r =
    (before : List BlockedTask) × (after : List BlockedTask) × Placed list new r.1 before after
    × (r.0 ≡ (first && is_empty before))

by_of_waits : (wt : ℕ) (time : Option ℕ) → waits_longer wt time ≡ not (not_later time (some wt))
by_of_waits wt none = refl
by_of_waits wt (some x) = ground arith

not_later-total : (a b : Option ℕ) → not_later a b ≡ false → not_later b a ≡ true
not_later-total a none e = absurd (ground arith)
not_later-total none (some y) e = refl
not_later-total (some x) (some y) e = ground arith

all_after-sorted :
    (wt : ℕ) (bound : Option ℕ) (list : List BlockedTask)
    → waits_longer wt bound ≡ true
    → sorted_from bound list ≡ true
    → all_after (some wt) list ≡ true
all_after-sorted wt bound [] w s = refl
all_after-sorted wt bound (node ∷ rest) w s =
    let later : waits_longer wt node.wakeup_time ≡ true =
      waits-not_later wt bound node.wakeup_time w (ground arith) in
    ground (
      arith,
      by_of_waits wt node.wakeup_time,
      all_after-sorted wt node.wakeup_time rest later (ground arith),
    )

insert-Inserted :
    (first : Bool) (task wt : ℕ) (bound : Option ℕ) (list : List BlockedTask)
    → sorted_from bound list ≡ true
    → Inserted first list (blocked task (some wt)) (insert first (blocked task (some wt)) wt list)
unfolding insert
insert-Inserted first task wt bound [] s = (
  [],
  [],
  record { whole = refl; placed = refl; by_time = refl; after_time = refl },
  ground arith,
)
insert-Inserted first task wt bound (node ∷ rest) s =
    elim (Bool-cases (waits_longer wt node.wakeup_time)) [
      | inl w ↦ rw w (
        [],
        node ∷ rest,
        record {
          whole = refl;
          placed = refl;
          by_time = refl;
          after_time =
              ground
                (arith, by_of_waits wt node.wakeup_time, all_after-sorted wt node.wakeup_time rest);
        },
        ground arith,
      )
      | inr w ↦
          let (before, after, p, e) =
            insert-Inserted false task wt node.wakeup_time rest (ground arith) in
          rw w (
            node ∷ before,
            after,
            record {
              whole = ap (λ r. node ∷ r) p.whole;
              placed = ap (λ r. node ∷ r) p.placed;
              by_time = ground (arith, by_of_waits wt node.wakeup_time, p.by_time);
              after_time = p.after_time;
            },
            ground (arith, e),
          )
    ]

-- An entry that waits for ever goes to the end.
push_back-Placed :
    (list : List BlockedTask) (task : ℕ)
    → Placed list (blocked task none) (push_back list (blocked task none)) list []
push_back-Placed [] task = record { whole = refl; placed = refl; by_time = refl; after_time = refl }
push_back-Placed (node ∷ rest) task =
    let p = push_back-Placed rest task in
    record {
      whole = ap (λ r. node ∷ r) p.whole;
      placed = ap (λ r. node ∷ r) p.placed;
      by_time = p.by_time;
      after_time = refl;
    }

-- The order of a list into which an entry was placed.
Placed-sorted :
    (bound : Option ℕ) (new : BlockedTask) (before after : List BlockedTask)
    → not_later bound new.wakeup_time ≡ true
    → all_by new.wakeup_time before ≡ true
    → all_after new.wakeup_time after ≡ true
    → sorted_from bound (before ++ after) ≡ true
    → sorted_from bound (before ++ new ∷ after) ≡ true
Placed-sorted bound new [] [] le by later s = ground arith
Placed-sorted bound new [] (node ∷ rest) le by later s =
    ground (arith, not_later-total node.wakeup_time new.wakeup_time)
Placed-sorted bound new (node ∷ before) after le by later s =
    ground (arith, Placed-sorted node.wakeup_time new before after)

-- The task is blocked and stands in order in the list, behind all tasks that do not wait longer.
-- The timer of this core is set if the task waits for a time and is now the first.
pub record Added (k : Kernel) (list : List BlockedTask) (task : ℕ) (time : Option ℕ) (k' : Kernel)
    (list' : List BlockedTask) : Type 0 where
  pub own : k'.tasks task ≡ record (k.tasks task) { status = TaskStatus.blocked }
  pub schedulers : k'.schedulers ≡ k.schedulers
  pub others : (a : ℕ) → a ≢ task → k'.tasks a ≡ k.tasks a
  pub sorted : sorted_from (some 0) list' ≡ true
  pub placed :
      (before : List BlockedTask) × (after : List BlockedTask) × Placed list
        (blocked task time)
        list'
        before
        after
      × (k'.oneshot k.here ≡ (if is_empty before && is_some time then time else k.oneshot k.here))

abbrev pub Adds :
    Kernel → List BlockedTask → ℕ → Option ℕ → Option (Kernel × List BlockedTask) → Type 0
Adds k list task time none = ⊥
Adds k list task time (some (k', list')) = Added k list task time k' list'

zero_first : (time : Option ℕ) → not_later (some 0) time ≡ true
zero_first none = refl
zero_first (some x) = ground arith

Placed-sorted_list :
    (list list' before after : List BlockedTask) (new : BlockedTask)
    → sorted_from (some 0) list ≡ true
    → Placed list new list' before after
    → sorted_from (some 0) list' ≡ true
Placed-sorted_list list list' before after new s p =
    ap (λ l. sorted_from (some 0) l) p.placed
    ∙ Placed-sorted (some 0) new before after (zero_first new.wakeup_time) p.by_time p.after_time
        (sym (ap (λ l. sorted_from (some 0) l) p.whole) ∙ s)

-- A running task that is added is blocked, and no other task changes. It stands behind the tasks
-- that wait no longer and before those that do, so the list stays in order; this core's timer is
-- set to its time exactly if it has one and is now the first.
pub add-Adds :
    (k : Kernel) (list : List BlockedTask) (task : ℕ) (time : Option ℕ)
    → (k.tasks task).status ≡ TaskStatus.running
    → sorted_from (some 0) list ≡ true
    → Adds k list task time (add k list task time)
unfolding add
add-Adds k list task none r s =
    let p = push_back-Placed list task in
    rw r (record {
      own = ground arith;
      schedulers = refl;
      others = λ a ne. ground arith;
      sorted = Placed-sorted_list list _ list [] (blocked task none) s p;
      placed = (list, [], p, ground arith);
    })
add-Adds k list task (some wt) r s =
    let (before, after, p, e) = insert-Inserted true task wt (some 0) list s in
    rw r (record {
      own = ground arith;
      schedulers = refl;
      others = λ a ne. ground arith;
      sorted = Placed-sorted_list list _ before after (blocked task (some wt)) s p;
      placed = (before, after, p, ground (arith, e));
    })
