-- ===== src/Frontend.antt =====
-- The frontend's own logic, frontend/lib.
pub mod Types
pub mod Proposals
pub mod Create
pub mod Amounts
pub mod Voters
pub mod Time
pub mod Delegates
pub mod Listing
pub mod Wallet
pub mod Live
pub mod Health
pub mod Feed
pub mod Calendar
pub mod Notifications
pub mod Env
mod Samples
