-- ===== src/GroundApi.antt =====
-- mission_ground/services/ground_api.py: the gateway that receives telemetry over HTTP.
pub mod Requests
pub mod Calls
pub mod Responses
pub mod Delivery
pub mod Passes
pub mod Bodies
pub mod Queueing
pub mod Refines
pub mod Retry
pub mod Recovery
pub mod Marking
pub mod Restart
pub mod Reads
pub mod Bearers
pub mod Retrieval
pub mod Boundary
pub mod Naming
pub mod Evidence
mod Examples
