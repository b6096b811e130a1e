-- ===== src/Examples.antt =====
-- Concrete runs: a process with stores in memory, and each theorem at one of its states.
pub mod Sample
pub mod MemoryVault
pub mod Names
pub mod AdminGroups
pub mod Registration
pub mod Api
pub mod Vault
pub mod Startup
pub mod Signing
