-- ===== src/Vendor.antt =====
-- mission_ground/services/vendor_simulator.py: the payload source, which makes frames, and the
-- vendor's service, which forwards them to the ground.
pub mod Readings
pub mod Payload
pub mod Forwarding
pub mod Scaling
pub mod Damage
pub mod Frames
pub mod BootFile
pub mod Counting
pub mod Sessions
pub mod Ground
pub mod Handoff
mod Examples
