-- ===== src/Admin/Settings.antt =====
-- backend/internal/admin/gateway_settings_runtime.go: the gateway's settings in force.
pub mod Runtime
pub mod Normal
pub mod Sound
pub mod Version
mod Tests
