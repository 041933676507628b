-- ===== src/Models.antt =====
-- The database rows of src/kiroku/models: each class is a record of its columns and of the
-- relationships that the modelled code follows. A date and time is a number of seconds.
pub mod Credential
pub mod Device
pub mod Job
pub mod Run
pub mod Schedule
pub mod Compliance
