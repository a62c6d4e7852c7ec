-- ===== src/Examples.antt =====
-- The theorems at work on a small graph: plan, then build, then check, where a failed check sends
-- the work back to build, twice at most.
pub mod Samples
mod Validation
mod Topology
mod Scheduling
mod Runs
mod Handoffs
mod Books
mod Reviews
