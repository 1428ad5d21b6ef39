-- ===== src/Cache.antt =====
-- The semantic cache of responses.
pub mod Similarity
pub mod Entries
pub mod Lookup
pub mod Best
pub mod Reuse
