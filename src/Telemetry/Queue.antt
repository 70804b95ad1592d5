-- ===== src/Telemetry/Queue.antt =====
-- mission_ground/telemetry/queue.py: references to processing jobs in Redis. Messages has the
-- two-field message, Lists the scripts and the operations of `TelemetryQueue`. Redis runs a script
-- or a command as one atomic step.
pub mod Messages
pub mod Lists
pub mod Transfers
pub mod Recovery
pub mod Acknowledge
pub mod Lifecycle
mod Examples
