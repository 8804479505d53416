-- ===== src/Security.antt =====
-- internal/security: what a job may ask for, its time to live and the command that it starts.
pub mod Limits
pub mod Secrets
pub mod Command
