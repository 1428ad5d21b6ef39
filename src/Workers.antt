-- ===== src/Workers.antt =====
-- The periodic loops of the workers, of which every replica runs all.
pub mod Passes
pub mod Turns
pub mod Held
pub mod Steps
pub mod Exclusion
