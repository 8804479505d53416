-- ===== src/Jobs.antt =====
-- internal/jobs: the unit of work, its registry, the manager that runs it and the janitor.
pub mod Job
pub mod ModelAttach
pub mod Registry
pub mod Manager
