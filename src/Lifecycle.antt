-- ===== src/Lifecycle.antt =====
-- backend/internal/lifecycle: whether the process takes requests.
pub mod Readiness
pub mod Phases
mod Tests
