-- ===== src/Telemetry.antt =====
-- The active telemetry path, mission_ground/telemetry.
pub mod Codec
pub mod Sequence
pub mod Health
pub mod Queue
pub mod Storage
pub mod Settings
pub mod World
