-- ===== src/Regressions.antt =====
-- The detection of regressions of the quality of an application.
pub mod Windows
pub mod Detect
pub mod Flagged
pub mod Covered
