-- ===== src/Health.antt =====
-- The health monitor: evidence from traces, a status for every model, and an operator's override.
pub mod Evidence
pub mod Monitor
pub mod Counts
pub mod Statuses
pub mod Warranted
pub mod Models
pub mod Overrides
