-- ===== src/Logs.antt =====
-- internal/logs: the bounded log buffer and the event bus of a job.
pub mod Ring
pub mod Bus
