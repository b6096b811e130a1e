-- ===== src/Domain.antt =====
-- app/domain: exceptions, dataclasses and the pure rules about groups.
pub mod Errors
pub mod Models
pub mod Rules
