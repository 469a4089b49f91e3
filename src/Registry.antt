-- ===== src/Registry.antt =====
-- svc.c: the list of all services.
pub mod Entries
pub mod Find
pub mod Reload
pub mod Jobs
mod Examples
