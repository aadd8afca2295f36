-- ===== src/Lib.antt =====
-- The kernel of libhermitMPK: memory management, tasks and their scheduling. Every file is about
-- code below src/ of the repository. A pointer or a reference to a shared object is a number: an
-- address in memory, or the number of a task in a store, which is a function from numbers. Machine
-- words keep the wrap-around of a release build (`add64`, `sub64`). A panic or a failed assertion
-- is a value of the result, so a theorem that an operation returns also says that it does not
-- panic. Log messages are left out.
--
-- Prelude has the names that all modules share, and lemmas on lists, words, alignment and bits.
--
-- Mm/FreeList.antt is src/mm/freelist.rs: FreeList with allocate, allocate_aligned, reserve and
-- deallocate, on the list of regions in order. It is described by the set of free addresses
-- (Mm/FreeList/Regions.antt). Mm/HoleList.antt is src/mm/hole.rs: the holes of the kernel heap in
-- the order of their addresses, with split_hole, the first-fit search and the merging release.
-- Mm/Heap.antt is src/mm/allocator.rs: the heap that uses its bootstrap array until it is
-- initialised and the hole list afterwards.
--
-- Scheduler/Task.antt and Scheduler/PriorityTaskQueue.antt are the task control block and
-- PriorityTaskQueue of src/scheduler/task.rs. A task is linked into a queue through its own fields,
-- so the operations change the store of tasks; Queues.antt says which list of tasks each priority
-- stands for. The walk of remove takes fuel: a list of n tasks needs n + 1. Stack pointers other
-- than the last one, stacks and the lwIP error code are not part of a task here.
--
-- Scheduler/Kernel.antt is the state of the scheduler: the static variables and PerCoreScheduler of
-- src/scheduler/mod.rs, with the timer and the FPU of each core. Scheduler/BlockedTaskQueue.antt is
-- BlockedTaskQueue of src/scheduler/task.rs, Scheduler/PerCoreScheduler.antt the function scheduler
-- and its cleanup, Scheduler/Lifecycle.antt spawn, clone, exit, join, get_tid, fpu_switch and
-- add_current_core. An operation runs on one core at a time, with the locks it takes. The search
-- for a free identifier takes fuel: one more than the distance to a free one.
--
-- Synch/Spinlock.antt is Spinlock of src/synch/spinlock.rs: a step relation for threads that take
-- tickets, enter and leave in any order. Synch/Semaphore.antt and Synch/RecursiveMutex.antt are
-- src/synch/semaphore.rs and src/synch/recmutex.rs: the loop of acquire is a round on the state,
-- between two of which the task may be switched away. Arch/Mpk.antt is src/arch/x86_64/mm/mpk.rs:
-- PKRU as a word, and which pages mpk_mem_set_key tags. Arch/Paging.antt is
-- src/arch/x86_64/mm/paging.rs, with the entries in Arch/Paging/Entry.antt, the pages in
-- Arch/Paging/Page.antt and the functions that others call in Arch/Paging/Calls.antt. A level of
-- the tables is a number, 3 for the PML4. Memory holds the words of the tables by their virtual
-- addresses: a table of a page is where the recursive entry of the PML4 makes it visible, and a new
-- table is cleared before it is read. map_loop has as fuel one more than the number of its pages.
-- The theorems are for addresses below 2 ^ 47. The page fault handler and init_page_tables are left
-- out. Arch/PhysicalMem.antt and Arch/VirtualMem.antt are physicalmem.rs and virtualmem.rs of the
-- same directory, over Mm/FreeList.antt.
--
-- Mm/MemoryManager.antt is src/mm/mod.rs, on top of these: blocks of frames that are mapped at
-- blocks of addresses, with the sizes that init computes in Mm/MemoryManager/Layout.antt. The
-- rounds of map_heap are the pages of the heap.
--
-- Collections/DoublyLinkedList.antt is src/collections/doublylinkedlist.rs: the list over a store
-- of nodes, with the runtime checks of RefCell.
--
-- Syscalls.antt has what the system calls share, Syscalls/Tasks.antt is src/syscalls/tasks.rs,
-- Syscalls/Timer.antt src/syscalls/timer.rs, Syscalls/Semaphore.antt src/syscalls/semaphore.rs,
-- Syscalls/RecursiveMutex.antt src/syscalls/recmutex.rs and Syscalls/CondVar.antt
-- src/syscalls/condvar.rs. The loop that wakes all waiters of a condition variable has as fuel one
-- more than their number. Each read of the timer is an argument of its own.
--
-- SpinlockIrqSave, the sequence of init in src/mm/mod.rs and the other files of src/syscalls are
-- not modelled; device drivers, console output, the loader and the AArch64 port are left out, since
-- they are register accesses with little logic of their own.
pub mod Prelude
pub mod Mm
pub mod Scheduler
pub mod Synch
pub mod Arch
pub mod Collections
pub mod Syscalls
