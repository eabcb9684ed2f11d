-- ===== src/Db.antt =====
-- The database layer, `bumper/db`: the interface of the document store, the base repository and
-- the repositories of the tables.
pub mod Rows
pub mod Tiny
pub mod Repo
pub mod Bots
pub mod Clients
pub mod Users
pub mod Tokens
pub mod CleanLogs
pub mod Meta
pub mod Migration
