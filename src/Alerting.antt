-- ===== src/Alerting.antt =====
-- Threshold alerts: the rules that operators tune, a pass over the last hour and the last day, and how
-- often a pass may repeat itself.
pub mod Rules
pub mod Pass
pub mod Defaults
pub mod Operator
pub mod Spacing
pub mod Coverage
