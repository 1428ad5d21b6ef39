-- ===== src/Rollout.antt =====
-- Progressive canary rollouts: the shared guard rails, a model rollout from creation to its end, and
-- what an operator and the worker do to it.
pub mod Window
pub mod Policy
pub mod Table
pub mod Service
pub mod Operator
pub mod Worker
pub mod Bounds
pub mod Stages
pub mod Active
pub mod Windows
pub mod History
pub mod Terminal
pub mod Arms
pub mod Decisions
