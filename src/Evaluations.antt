-- ===== src/Evaluations.antt =====
-- The evaluation of traces: the job of the queue, and the recovery of lost jobs.
pub mod Jobs
pub mod Recovery
pub mod Lifecycle
pub mod Requeued
pub mod Quality
