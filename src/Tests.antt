-- ===== src/Tests.antt =====
-- Concrete runs: each theorem applied at an input that exercises the code.
pub mod Codec
pub mod Data
pub mod Code
mod Lives
mod Logs
mod Machine
mod Evidence
mod Recovery
mod Restart
mod Starts
mod Patch
mod LogTool
mod Broadcaster
mod Selector
