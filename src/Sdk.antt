-- ===== src/Sdk.antt =====
-- The SDK, sdk/src.
pub mod Types
pub mod Errors
pub mod Cache
pub mod Client
pub mod Batch
pub mod Events
pub mod Freighter
