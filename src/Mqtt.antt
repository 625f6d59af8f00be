-- ===== src/Mqtt.antt =====
-- The Home Assistant side (server/mqtt_bridge.py): the sink of the state store.
pub mod View
pub mod Sink
pub mod Lazy
pub mod Discovery
pub mod Topics
