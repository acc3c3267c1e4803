-- ===== src/Dataflow.antt =====
-- pkg/dataflow: the scheduler of the periodic tasks and what they do.
pub mod Types
pub mod Scheduler
pub mod Prober
pub mod Lifecycle
pub mod Channel
pub mod Collect
mod Tests
