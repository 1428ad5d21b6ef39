-- ===== src/Routing.antt =====
-- The model router: complexity and risk of a request, scores, and the choice.
pub mod Complexity
pub mod Router
pub mod Choice
pub mod Statistics
pub mod Gates
pub mod Observed
pub mod Chain
