-- ===== src/Tests.antt =====
-- Each theorem at a concrete input.
mod Configs
mod Streams
mod Commands
mod Managers
mod Requests
mod Accounts
mod Models
mod Signups
mod Clients
mod Attachments
mod Runtimes
