-- ===== src/Workers.antt =====
-- The job queue: workers/job.py, workers/base.py and workers/inprocess.py.
mod Queue
unfoldable pub use Queue.*
pub mod Steps
pub mod Spec
pub mod Refines
pub mod Attempts
