-- ===== src/Lifecycle.antt =====
-- The rows of runs and batches between the components that change them: fire_job of
-- src/kiroku/dispatch.py, _persist and the reaper of src/kiroku/recorder/runner.py, and the
-- cancellations of src/kiroku/web/routes/runs.py. Each step is one transaction.
pub mod Tables
pub mod Reaps
pub mod Cancels
pub mod Purges
pub mod Alike
pub mod Closes
pub mod Results
pub mod Counts
pub mod Ids
pub mod NewBatch
pub mod Fires
pub mod Steps
pub mod Batches
