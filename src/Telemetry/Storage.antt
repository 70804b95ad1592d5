-- ===== src/Telemetry/Storage.antt =====
-- mission_ground/telemetry/storage.py: durable records and the transactions of `TelemetryRepository`.
pub mod Records
pub mod Tables
pub mod Deliveries
pub mod Repeats
pub mod Acceptance
pub mod Jobs
pub mod Completion
pub mod Queries
pub mod Receipts
pub mod History
mod Examples
