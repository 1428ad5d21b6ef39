-- ===== src/Generation.antt =====
-- Which models a request is served from.
pub mod Plan
pub mod Targets
pub mod Serving
pub mod Traces
pub mod Blame
