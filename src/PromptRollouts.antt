-- ===== src/PromptRollouts.antt =====
-- The canary rollouts of prompt versions: their table and creation, what an operator and the worker do
-- to them, when a challenger is rolled back, and what holds in every history.
pub mod Service
pub mod Operator
pub mod Worker
pub mod Decisions
pub mod History
