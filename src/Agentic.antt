-- ===== src/Agentic.antt =====
-- app/agentic: agents that review what the shadow pipeline decides, and may only block or reduce it.
pub mod Config
pub mod Models
pub mod Policy
pub mod Review
pub mod Agents
pub mod Orchestrator
pub mod FailClosed
pub mod Vetoes
pub mod Tests
