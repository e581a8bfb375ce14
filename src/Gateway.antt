-- ===== src/Gateway.antt =====
-- backend/internal/gateway: the proxy in front of the upstream accounts.
pub mod Limits
pub mod Sse
pub mod Proxy
