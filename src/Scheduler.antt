-- ===== src/Scheduler.antt =====
-- runtime/scheduler.py: dispatch of ready slices, with dependency, pool and write-scope guards and
-- a round robin over the runs.
pub mod Slices
pub mod Methods
pub mod Next
pub mod Selection
pub mod Exclusion
pub mod Fairness
mod Examples
