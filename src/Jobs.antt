-- ===== src/Jobs.antt =====
-- backend/app/services/evaluation_jobs.py and backend/app/schemas/evaluation_job.py: the registry of
-- background evaluations. The event loop runs one piece of code between two awaits at a time; each
-- such piece is a function on the registry.
pub mod Registry
pub mod Operations
pub mod Removal
pub mod Eviction
pub mod Updates
pub mod Steps
pub mod Capacity
pub mod Preservation
pub mod Promises
mod Tests
