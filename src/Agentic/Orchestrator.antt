-- ===== src/Agentic/Orchestrator.antt =====
-- app/agentic/orchestrator.py: which agent reviews what, and what comes of its record.
pub mod Outcome
pub mod Reviews
pub mod PreMarket
