-- ===== src/Common.antt =====
-- The modules of mission_ground/common, which serve the earlier packet path.
pub mod Tracker
pub mod Packet
