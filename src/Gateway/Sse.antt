-- ===== src/Gateway/Sse.antt =====
-- gateway/sse_parser.go: server-sent events out of a byte stream, under limits of memory.
pub mod Parser
pub mod Bounds
pub mod Total
pub mod RoundTrip
mod Tests
