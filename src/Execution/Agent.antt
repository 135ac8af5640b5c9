-- ===== src/Execution/Agent.antt =====
-- app/execution/order_manager.py (and reconciliation.py): `ExecutionAgent`. A call takes and returns
-- the state of the store and of the world that the broker acts on, also where it raises.
mod Steps
pub mod Equations
pub use Steps.{
  State, Call, Environment, Outcome, ok_at, err_at, is_other, not_approved, other_market,
  upsert_then,
}
unfoldable pub use Steps.{
  validate_india, validate_pre_trade, submit, reconcile, place, settle, execute, execute_all,
  failed_record, placed_record, reconciled_record,
}
