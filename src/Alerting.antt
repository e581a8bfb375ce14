-- ===== src/Alerting.antt =====
-- backend/internal/alerting: when a system event makes an alert rule notify.
pub mod Model
pub mod Evaluate
pub mod Invariant
pub mod Cooldown
pub mod Aggregation
mod Tests
