-- ===== src/Contract.antt =====
-- internal/contract: the validation of task contracts.
pub mod Values
pub mod Scope
pub mod Revision
pub mod Paths
pub mod Validator
