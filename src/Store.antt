-- ===== src/Store.antt =====
-- internal/store: the tables, the operations on them, and what every run of the operations keeps.
pub mod Schema
pub mod Audit
pub mod ReportPath
pub mod Tasks
pub mod Contracts
pub mod Dispatch
pub mod Send
pub mod Closure
pub mod Board
pub mod Effect
pub mod Sessions
pub mod Provisioning
pub mod Recovery
pub mod Restart
pub mod Stop
pub mod Runs
