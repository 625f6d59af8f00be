-- ===== src/Bridge.antt =====
-- The TLS bridge between an appliance and the LG cloud (server/wm_bridge.py, deploy/wm_relay.py).
pub mod Ends
pub mod Engine
pub mod Relay
