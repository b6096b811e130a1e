-- ===== src/Services.antt =====
-- app/services: the service classes over a bundle of stores.
pub mod Contract
pub mod Signer
pub mod Signing
pub mod Identity
pub mod AdminGroups
pub mod Tokens
pub mod Runtime
pub mod Registration
pub mod Bootstrap
pub mod Lifecycle
