-- ===== src/App.antt =====
-- The HTTPS fake-cloud server (server/app.py).
pub mod Text
pub mod Dispatch
pub mod Debug
pub mod Health
pub mod Forward
pub mod Replay
