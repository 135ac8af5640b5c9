-- ===== src/Intraday.antt =====
-- app/intraday: the shadow pipeline, from a snapshot of the market to a virtual position.
pub mod Models
pub mod Config
pub mod Quality
pub mod Universe
pub mod Regime
pub mod Scoring
pub mod RiskManager
pub mod KillSwitch
pub mod Clock
pub mod Exits
pub mod Costs
pub mod Positions
pub mod ShadowExecution
pub mod Readiness
pub mod Strategies
pub mod Reviewer
pub mod Pipeline
pub mod Approved
pub mod Halts
pub mod Book
pub mod Levels
pub mod Votes
pub mod Graded
pub mod Proposals
pub mod Lifecycle
pub mod Tests
