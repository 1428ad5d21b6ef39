-- ===== src/Llm.antt =====
-- Calls of a language model: providers, retries and fallback.
pub mod Provider
pub mod Resilient
pub mod Retries
pub mod Fallback
