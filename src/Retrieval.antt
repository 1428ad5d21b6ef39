-- ===== src/Retrieval.antt =====
-- The documents of a data set that a request is answered from.
pub mod Corpus
pub mod Ranking
pub mod Transparent
pub mod Retention
pub mod Sorting
pub mod Sources
pub mod Served
pub mod Best
