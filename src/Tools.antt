-- ===== src/Tools.antt =====
-- The repository's tools (tools).
pub mod Appliance
pub mod Extract
pub mod RelayLog
