-- ===== src/Control.antt =====
-- The :47878 control channel above the framings (server/control_channel.py).
pub mod Protocol
pub mod Channel
pub mod Session
pub mod Stream
pub mod Observer
pub mod Start
