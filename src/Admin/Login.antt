-- ===== src/Admin/Login.antt =====
-- admin/login_throttle.go: how failed logins slow further attempts down.
pub mod Throttle
pub mod Delay
pub mod Entries
pub mod Invariant
pub mod Reservation
mod Tests
