-- ===== src/Repositories/Vault/Laws.antt =====
-- The stores of Vault, call by call, where the secrets represent a view.
pub mod Profiles
pub mod Memberships
pub mod Tokens
pub mod TokenList
pub mod Members
pub mod GroupList
