-- ===== src/Repositories/Vault.antt =====
-- app/repositories/vault_users.py, vault_groups.py and vault_tokens.py: the stores over Vault.
pub mod Client
pub mod Documents
pub mod RoundTrip
pub mod Users
pub mod Memberships
pub mod Groups
pub mod Tokens
pub mod Contract
pub mod Represents
pub mod Sorting
pub mod Once
pub mod Decoding
pub mod Put
pub mod PutToken
pub mod Listing
pub mod Laws
pub mod Lawful
