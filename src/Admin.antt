-- ===== src/Admin.antt =====
-- backend/internal/admin: the guards of the administration interface and its settings.
pub mod Login
pub mod Settings
