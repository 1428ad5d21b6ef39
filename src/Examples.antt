-- ===== src/Examples.antt =====
-- Runs of the models on small tables, and the theorems applied to them.
mod Rollouts
mod Routes
mod Retries
mod Health
mod Cache
mod Budgets
mod Plans
mod Queue
mod Prompts
mod PromptRollouts
mod Access
mod Serving
mod Alerts
mod Retrieval
mod Registry
mod Quality
mod Workers
mod Regressions
mod Datasets
mod Experiments
