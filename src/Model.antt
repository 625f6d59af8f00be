-- ===== src/Model.antt =====
-- Decoding by the per-model modelJson (server/models).
pub mod Binary
pub mod Registry
pub mod Friendly
pub mod Envelope
pub mod Washer
pub mod Modules
pub mod Report
pub mod Resolve
pub mod Vocabulary
