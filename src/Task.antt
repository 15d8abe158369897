-- ===== src/Task.antt =====
-- src/scheduler/task/mod.rs: tasks, task handles and their queues.
pub mod Types
pub mod Levels
pub mod ReadyQueue
pub mod HandleQueue
