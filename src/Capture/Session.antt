-- ===== src/Capture/Session.antt =====
-- The program from its start on: captures are made, used and stopped in any order, while Ruby
-- reports allocations and frees and runs the postponed job.
pub mod Tidy
pub mod Ready
pub mod Reports
pub mod Jobs
pub mod Methods
pub mod MovedEvents
pub mod Compaction
pub mod Reach
pub mod Iteration
