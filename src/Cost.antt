-- ===== src/Cost.antt =====
-- src/pitwall/cost: what admits spending.
pub mod CircuitBreaker
pub mod KillEscalation
pub mod BudgetGate
pub mod SloGovernor
pub mod SubBudgets
pub mod SyncGate
