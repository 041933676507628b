-- ===== src/Web.antt =====
-- src/kiroku/web: the handlers that change the rows, each as a function of the rows and of what the
-- request carries.
pub mod Runs
pub mod Import
pub mod Auth
pub mod Search
