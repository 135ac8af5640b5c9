-- ===== src/Risk.antt =====
-- app/risk: the deterministic checks, the sizing of a trade and the engine that joins them.
pub mod KillSwitch
pub mod Freshness
pub mod Limits
pub mod Quality
pub mod Sizing
pub mod Engine
