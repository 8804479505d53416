-- ===== src/Store.antt =====
-- internal/store: the tables of users, workspaces and sessions, and the operations on them.
pub mod Tables
pub mod Sessions
pub mod Resets
pub mod Cloud
pub mod Credentials
pub mod Models
pub mod Runtimes
pub mod Usage
pub mod Slugs
pub mod Signup
pub mod Sql
