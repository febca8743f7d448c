-- ===== src/Sdk/Client.antt =====
-- sdk/src/client.ts: the client, one child for each of its parts.
pub mod Transport
pub mod Retry
pub mod Decoding
pub mod Window
pub mod SimulationErrors
pub mod Transactions
pub mod Reads
pub mod InsecureRpc
pub mod Fees
pub mod Polling
pub mod StatusWait
mod Samples
