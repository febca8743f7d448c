-- ===== src/Scripts.antt =====
-- The scripts of the repository.
pub mod Script
pub mod Seed
