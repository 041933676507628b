-- ===== src/Recorder.antt =====
-- src/kiroku/recorder: the git store, the recorder's state, `_persist` and the reaper, each with
-- its theorems.
pub mod Store
pub mod State
pub mod Payload
pub mod Persist
pub mod Reaper
pub mod Staging
pub mod Diff
pub mod DiffNumbers
pub mod Counters
pub mod Applied
pub mod Counting
pub mod Closing
pub mod Reaping
