-- ===== src/Observe.antt =====
-- Following the relay's logs (server/observability.py, server/wm_local_bridge.py).
pub mod Follow
pub mod Lines
pub mod Ages
pub mod Loop
pub mod Records
pub mod Washer
