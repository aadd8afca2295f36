-- ===== src/Scheduler.antt =====
-- src/scheduler: tasks, their queues, and the per-core scheduler.
pub mod Task
pub mod PriorityTaskQueue
pub mod Kernel
pub mod BlockedTaskQueue
pub mod Sample
pub mod PerCoreScheduler
pub mod Lifecycle
