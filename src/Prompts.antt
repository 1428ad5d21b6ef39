-- ===== src/Prompts.antt =====
-- Prompt templates and their versions.
pub mod Templates
pub mod Rendering
pub mod Versions
pub mod Promotion
pub mod Registry
pub mod Numbering
pub mod Registered
