-- ===== src/Schedule.antt =====
-- internal/schedule: the decisions of the scheduler, each in a module of its own.
pub mod Policy
pub mod Verdict
pub mod Costs
pub mod Arcs
pub mod Attempts
pub mod Execute
pub mod Prompts
