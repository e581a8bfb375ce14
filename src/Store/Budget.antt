-- ===== src/Store/Budget.antt =====
-- store/api_key_budget_ledger.go: the ledger of the budgets of API keys.
pub mod Tables
pub mod Admit
pub mod Settle
pub mod Maintain
pub mod Initialize
pub mod Balance
pub mod Admission
pub mod Settling
pub mod Expiry
pub mod Backfill
pub mod Reachable
pub mod Limits
pub mod Once
mod Tests
