-- ===== src/Risk/Engine.antt =====
-- app/risk/risk_engine.py: `RiskEngine.evaluate`.
pub mod Inputs
mod Reasons
mod Sized
mod Evaluate
pub mod Gates
pub mod Assessed
pub mod Approval
pub mod Limits
pub mod Outcome
pub mod Total
pub mod Tests
unfoldable pub use Reasons.*
unfoldable pub use Sized.*
unfoldable pub use Evaluate.*
