-- ===== src/Store.antt =====
-- backend/internal/store: what the database holds, as far as the statements of the code change it.
pub mod Budget
