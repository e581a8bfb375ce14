-- ===== src/Provider.antt =====
-- backend/internal/provider: the upstream accounts and the choice among them.
pub mod Account
pub mod Schedulable
pub mod Sticky
pub mod Order
pub mod Repository
pub mod Chain
pub mod Links
pub mod Select
pub mod Failure
pub mod Pauses
pub mod Offered
pub mod Choice
pub mod Usable
pub mod Chosen
pub mod Selection
mod Tests
mod Outcomes
