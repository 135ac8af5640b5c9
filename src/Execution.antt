-- ===== src/Execution.antt =====
-- app/execution and app/brokers/base.py: the guarded execution of an order.
pub mod Broker
pub mod Store
pub mod Agent
pub mod Permission
pub mod Idempotency
pub mod Stored
mod Tests
