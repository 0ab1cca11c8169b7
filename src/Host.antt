-- ===== src/Host.antt =====
-- internal/host: the admission of operations, and the teardown of the daemon.
pub mod Authority
pub mod Teardown
