-- ===== src/Jobs.antt =====
-- Training jobs (cyan/training/jobs): the records, the store on disk and the process supervisor.
pub mod Models
pub mod Events
pub mod Store
pub mod EventStore
pub mod Recover
pub mod Supervisor
pub mod Monitor
pub mod Apart
