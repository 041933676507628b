-- ===== src/Tests.antt =====
-- Concrete values, and the theorems applied to them.
mod Values
mod Compliance
mod Dispatch
mod Recorder
mod Worker
mod Lifecycle
mod Import
mod Login
mod Search
mod Cve
