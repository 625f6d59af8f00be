-- ===== src/Cloud.antt =====
-- Push events of the ThinQ Connect API (server/thinq_events.py, server/app.py).
pub mod Events
pub mod View
