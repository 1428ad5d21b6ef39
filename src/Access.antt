-- ===== src/Access.antt =====
-- API keys: how a request is authenticated, what an administrator does to keys, and what a key confined
-- to one application can reach.
pub mod Keys
pub mod Endpoints
pub mod Applications
pub mod Guarded
pub mod Retired
pub mod Confined
