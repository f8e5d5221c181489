-- ===== src/Tasks.antt =====
-- aquaops/tasks/jobs.py: the ingestion worker, from the claim of a task to its last attempt.
pub mod Identifiers
pub mod Claim
pub mod Finish
pub mod Attempt
pub mod Worker
pub mod Interleaved
pub mod Serial
pub mod Claiming
pub mod Fencing
pub mod History
pub mod Ending
pub mod Schedule
pub mod Deliveries
mod Samples
