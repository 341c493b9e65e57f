-- ===== src/RequestBudget.antt =====
-- The budget of one request to a model: agent/src/core/request-budget.
pub mod Estimate
pub mod Split
pub mod Compact
pub mod Checkpoints
pub mod Retry
mod Tests
