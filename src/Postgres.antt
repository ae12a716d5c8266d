-- ===== src/Postgres.antt =====
-- lib/postgresMgr.js, one module for each of the manager's jobs.
pub mod Manager
pub mod Roles
pub mod Lifecycle
pub mod Queries
pub mod Repl
pub mod Versions
pub mod Xlog
pub mod Stopping
pub mod Health
pub mod Settings
