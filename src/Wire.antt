-- ===== src/Wire.antt =====
-- The two framings of the :47878 control channel (server/control_channel.py).
pub mod Len4
pub mod Msgpack
pub mod Framing
