-- ===== src/Experiments.antt =====
-- Experiments: a model and a version of a prompt, run against a data set.
pub mod Run
pub mod Passes
pub mod Rated
pub mod Gated
pub mod Compare
pub mod Pipeline
pub mod Origin
