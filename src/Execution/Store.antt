-- ===== src/Execution/Store.antt =====
-- app/execution/idempotency.py: the stores of orders by their idempotency keys, and the
-- interface that the agent relies on.
mod Interface
mod Memory
mod Database
pub mod Durable
pub use Interface.{Store, IsStore}
unfoldable pub use Memory.*
unfoldable pub use Database.*
