-- ===== src/Gateway/Proxy.antt =====
-- gateway/proxy.go: how a request is served by the upstream accounts.
pub mod Codes
pub mod Serving
pub mod Routes
pub mod Routing
pub mod Upstream
pub mod Failover
pub mod Tidy
pub mod Answers
pub mod Moves
pub mod Accounts
pub mod Budgets
pub mod Granted
pub mod Returns
pub mod Passes
pub mod Environment
pub mod Handler
pub mod Released
pub mod Given
pub mod Served
pub mod Settled
mod Tests
mod Requests
