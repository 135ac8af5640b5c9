-- ===== src/Paper/Engine.antt =====
-- app/paper/engine.py: the accounting engine of paper trading, and what holds in all its runs.
pub mod State
pub mod Orders
pub mod Account
pub mod Cases
pub mod Journal
pub mod Positions
pub mod Limits
pub mod Exits
pub mod Total
mod Tests
