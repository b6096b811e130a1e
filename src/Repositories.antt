-- ===== src/Repositories.antt =====
-- app/repositories: the protocols of the stores, what they promise, the stores in memory, and the
-- layout of keys in Vault.
pub mod View
pub mod Interfaces
pub mod Lawful
pub mod Dict
pub mod InMemory
pub mod VaultPaths
pub mod Json
pub mod Calls
pub mod Vault
