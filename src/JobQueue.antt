-- ===== src/JobQueue.antt =====
-- src/job_queue.py: the jobs and their queue, the worker with the world that it works on, and what is
-- proved of them.
pub mod Jobs
pub mod World
pub mod Worker
pub mod Steps
pub mod Lookup
pub mod Mirror
pub mod Freeze
pub mod Cleanup
pub mod Kept
pub mod Unpaid
pub mod Ending
