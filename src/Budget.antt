-- ===== src/Budget.antt =====
-- The daily budgets of applications.
pub mod Spend
pub mod Staleness
pub mod Enforcement
