-- ===== src/Agentic/Agents.antt =====
-- The deterministic reviews of the agents (app/agentic/agents.py).
pub mod Context
pub mod Trade
pub mod Research
