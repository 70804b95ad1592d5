-- ===== src/Telemetry/Storage/Examples.antt =====
-- Concrete runs of storage.py's transactions, and each property at one of them.
mod Packets
mod Queries
mod Work
use cislunar_ground_platform.Base.{ℕ, Option, none, some, List, [], ◌∷◌, false}
use cislunar_ground_platform.Base.Int.{ℤ, pos}
use cislunar_ground_platform.Telemetry.Storage.Records.{DecodedTelemetryValues}
use cislunar_ground_platform.Telemetry.Storage.Deliveries.{Delivery}

abbrev pub delivery : Delivery
delivery = record {
  raw_body = 1 ∷ 2 ∷ [];
  peer_certificate_identity = "vendor";
  presented_request_id = some "4d";
  canonical_request_id = some 77;
  content_type = none;
  received_at = none;
  vendor_sent_at = none;
  receipt_id = none;
}

abbrev pub values : DecodedTelemetryValues
values = record {
  protocol_version = pos 1;
  payload_id = pos 1;
  boot_id = pos 7;
  sequence_number = pos 3;
  sample_timestamp_us = pos 1767225660000000;
  temperature_centi_c = pos 2150;
  voltage_mv = pos 28000;
  operating_mode = pos 2;
  fault_flags = pos 0;
}
