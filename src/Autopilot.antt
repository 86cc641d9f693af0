-- ===== src/Autopilot.antt =====
-- The autopilot (src/pitwall/autopilot).
pub mod Schema
pub mod Gates
pub mod Controller
