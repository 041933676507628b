-- ===== src/Dispatch.antt =====
-- src/kiroku/dispatch.py: who is targeted and what is sent in `Specs`, and `fire_job` in `Fire`.
pub mod Specs
pub mod Fire
pub mod Targets
pub mod Tallies
pub mod Streams
pub mod NewRuns
pub mod Added
pub mod Firing
