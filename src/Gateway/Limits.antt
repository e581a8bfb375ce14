-- ===== src/Gateway/Limits.antt =====
-- gateway/proxy.go: the limiters on concurrent requests, requests per minute, tokens per minute.
pub mod Concurrency
pub mod Slots
pub mod Rate
pub mod Minute
pub mod Tokens
mod Tests
