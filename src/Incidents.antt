-- ===== src/Incidents.antt =====
-- Incidents (cyan/training/incidents): the records, the store on disk and the coordinator.
pub mod Models
pub mod Store
pub mod Evidence
pub mod LogTool
pub mod Selector
pub mod Patch
pub mod Patches
pub mod Replacing
pub mod Smoke
pub mod Coordinator
pub mod Moves
pub mod Lifecycle
