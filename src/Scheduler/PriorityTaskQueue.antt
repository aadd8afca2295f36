-- ===== src/Scheduler/PriorityTaskQueue.antt =====
-- `PriorityTaskQueue` of src/scheduler/task.rs: a doubly linked list of tasks for each priority,
-- linked through the tasks themselves, and a bitmap of the lists that are not empty.
-- `none` is a panic on an index out of range. A walk takes fuel.
pub mod Chain
pub mod Queues
pub mod Laws
pub mod Pops
pub mod Removes
pub mod Unlinks
pub mod Removal
mod Tests
use libhermit_mpk.Prelude.{
  ℕ, zero, suc, ◌-◌, ◌^◌, ◌≡◌, Bool, true, false, Option, none, some, ltb, leb, ◌==◌, if◌then◌else◌,
  bit_or, bit_and, not64,
}
use libhermit_mpk.Prelude.TestBit.{bit}
use libhermit_mpk.Scheduler.Task.{Task, Tasks, no_priorities, update, set_next, set_prev, set_links}

pub record PriorityTaskQueue : Type 0 where
  pub heads : ℕ → Option ℕ
  pub tails : ℕ → Option ℕ
  pub prio_bitmap : ℕ

-- `PriorityTaskQueue::new`.
pub new : PriorityTaskQueue
new = record { heads = λ i. none; tails = λ i. none; prio_bitmap = 0 }

-- The `bsr` instruction: the highest set bit from `n` down.
pub bsr : ℕ → ℕ → ℕ
bsr zero value = 0
bsr (suc n) value = if bit value (suc n) == 1 then suc n else bsr n value

-- `msb` of processor.rs.
pub msb : ℕ → Option ℕ
msb value = if ltb 0 value then some (bsr 63 value) else none

-- The links that `push` writes, by the tail of the queue.
abbrev pub link_last : Tasks → ℕ → Option ℕ → Tasks
link_last ts task none = set_links ts task none none
link_last ts task (some tail) = set_links (set_next ts tail (some task)) task none (some tail)

abbrev pub head_after : PriorityTaskQueue → ℕ → ℕ → Option ℕ → ℕ → Option ℕ
head_after q i task none = update q.heads i (some task)
head_after q i task (some tail) = q.heads

pub push : Tasks → PriorityTaskQueue → ℕ → Option (Tasks × PriorityTaskQueue)
push ts q task =
    let i = (ts task).prio in
    if ltb i no_priorities
    then some (
      link_last ts task (q.tails i),
      record {
        heads = head_after q i task (q.tails i);
        tails = update q.tails i (some task);
        prio_bitmap = bit_or q.prio_bitmap (2 ^ i);
      },
    )
    else none

abbrev pub cut_prev : Tasks → Option ℕ → Tasks
cut_prev ts none = ts
cut_prev ts (some next) = set_prev ts next none

-- The queue behind a head that was taken.
abbrev pub without_head : PriorityTaskQueue → ℕ → Option ℕ → PriorityTaskQueue
without_head q i none = record {
  heads = update q.heads i none;
  tails = update q.tails i none;
  prio_bitmap = bit_and q.prio_bitmap (not64 (2 ^ i));
}
without_head q i (some next) = record q { heads = update q.heads i (some next) }

abbrev pub is_task : Option ℕ → ℕ → Bool
is_task none task = false
is_task (some t) task = t == task

-- A head that is linked to itself is borrowed twice, which panics.
abbrev take_head :
    Tasks → PriorityTaskQueue → ℕ → Option ℕ → Option (Option ℕ × Tasks × PriorityTaskQueue)
take_head ts q i none = some (none, ts, q)
take_head ts q i (some task) =
    let next = (ts task).next in
    if is_task next task
    then none
    else some (some task, set_links (cut_prev ts next) task none none, without_head q i next)

-- An index from `msb` is below 64; from 31 on it would be out of range.
pub pop_from_queue : Tasks → PriorityTaskQueue → ℕ → Option (Option ℕ × Tasks × PriorityTaskQueue)
pop_from_queue ts q i = if ltb i no_priorities then take_head ts q i (q.heads i) else none

pub pop : Tasks → PriorityTaskQueue → Option (Option ℕ × Tasks × PriorityTaskQueue)
pop ts q = elim (msb q.prio_bitmap) [ none ↦ some (none, ts, q) | some i ↦ pop_from_queue ts q i ]

pub pop_with_prio : Tasks → PriorityTaskQueue → ℕ → Option (Option ℕ × Tasks × PriorityTaskQueue)
pop_with_prio ts q prio = elim (msb q.prio_bitmap) [
  | none ↦ some (none, ts, q)
  | some i ↦ if leb prio i then pop_from_queue ts q i else some (none, ts, q)
]

-- The walk of `remove`: whether the task is met from `curr` on; `none` when the fuel runs out.
pub meets : ℕ → Tasks → ℕ → Option ℕ → Option Bool
meets zero ts task curr = none
meets (suc fuel) ts task none = some false
meets (suc fuel) ts task (some curr) =
    let rest = meets fuel ts task (ts curr).next in if curr == task then some true else rest

abbrev pub relink_next : Tasks → Option ℕ → Option ℕ → Tasks
relink_next ts none next = ts
relink_next ts (some p) next = set_next ts p next

abbrev pub relink_prev : Tasks → Option ℕ → Option ℕ → Tasks
relink_prev ts none prev = ts
relink_prev ts (some n) prev = set_prev ts n prev

-- The neighbours of a task that was met are linked to each other.
abbrev pub unlink : Tasks → ℕ → Bool → Tasks
unlink ts task false = ts
unlink ts task true =
    let prev = (ts task).prev in
    let next = (ts task).next in relink_prev (relink_next ts prev next) next prev

abbrev pub clear_if_empty : ℕ → ℕ → Option ℕ → ℕ
clear_if_empty bitmap i none = bit_and bitmap (not64 (2 ^ i))
clear_if_empty bitmap i (some t) = bitmap

-- The head moves on if it is the task. The tail is never changed.
abbrev pub drop_head : Tasks → PriorityTaskQueue → ℕ → ℕ → PriorityTaskQueue
drop_head ts q i task =
    if is_task (q.heads i) task
    then record q {
      heads = update q.heads i (ts task).next;
      prio_bitmap = clear_if_empty q.prio_bitmap i (ts task).next;
    }
    else q

abbrev pub remove_met :
    Tasks → PriorityTaskQueue → ℕ → ℕ → Option Bool → Option (Tasks × PriorityTaskQueue)
remove_met ts q i task none = none
remove_met ts q i task (some met) =
    let ts' = unlink ts task met in some (ts', drop_head ts' q i task)

pub remove : ℕ → Tasks → PriorityTaskQueue → ℕ → Option (Tasks × PriorityTaskQueue)
remove fuel ts q task =
    let i = (ts task).prio in
    if ltb i no_priorities then remove_met ts q i task (meets fuel ts task (q.heads i)) else none
