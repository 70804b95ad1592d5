-- ===== src/Worker/Examples.antt =====
-- One message with its job, packet and receipt, and each property of the worker at it.
use cislunar_ground_platform.Base.{
  ◌≤◌, bytes_eq_refl, arith, none, some, [], ◌∷◌, Bytes, bytes_eq, String, ok, err, ◌≡◌, ◌≢◌, refl,
}
use cislunar_ground_platform.Base.Int.{pos, ◌+ℤ◌, ◌-ℤ◌}
use cislunar_ground_platform.Std.Datetime.{utc}
use cislunar_ground_platform.Std.Struct.{pack}
use cislunar_ground_platform.Std.Zlib.{crc32}
use cislunar_ground_platform.Telemetry.Codec.{
  TelemetryFrame, validate_fields, encode_telemetry, decode_telemetry, crc32_iso_hdlc,
  timestamp_us_of,
}
use cislunar_ground_platform.Telemetry.Codec.Validation.{validate_fields_iff}
use cislunar_ground_platform.Telemetry.Codec.RoundTrip.{decode-encode}
use cislunar_ground_platform.Telemetry.Health.{HealthAssessment, assess_health}
use cislunar_ground_platform.Telemetry.Queue.Messages.{QueueMessage, to_json_bytes}
use cislunar_ground_platform.Telemetry.Queue.Transfers.{count}
use cislunar_ground_platform.Telemetry.Storage.Records.{
  TelemetryDeliveryReceipt, LogicalTelemetryPacket, TelemetryProcessingJob, TelemetryWorkItem,
  SequenceDisposition, invalid_delivery_state,
}
use cislunar_ground_platform.Telemetry.Storage.Tables.{
  Db, empty_db, find, get_job, get_processed, get_packet, get_receipt,
}
use cislunar_ground_platform.Telemetry.Storage.Deliveries.{Delivery, new_receipt}
use cislunar_ground_platform.Telemetry.Storage.Acceptance.{new_packet, new_job}
use cislunar_ground_platform.Telemetry.Storage.Jobs.{queued_job, claimed_job, work_item}
use cislunar_ground_platform.Std.Uuid.{uuid_of}
use cislunar_ground_platform.Telemetry.World.{World}
use cislunar_ground_platform.Worker.{
  WorkerError, storage, mismatch, stops, stored_values, result_of, evaluate, handle_message,
  after_evaluation,
}
use cislunar_ground_platform.Worker.Evaluation.{evaluate-exact}
use cislunar_ground_platform.Worker.Completion.{Unprocessed, Handles, handle_message-Handles}
use cislunar_ground_platform.Worker.Ownership.{after_evaluation-lost}

abbrev frame : TelemetryFrame
frame = record {
  payload_id = pos 1;
  boot_id = pos 7;
  sequence_number = pos 3;
  timestamp_us = pos 1767225660000000;
  temperature_centi_c = pos 2150;
  voltage_mv = pos 28000;
  operating_mode = pos 2;
  fault_flags = pos 0;
  protocol_version = pos 1;
}

abbrev raw : Bytes
raw =
    1 ∷ 1 ∷ 0 ∷ 0 ∷ 0 ∷ 7 ∷ 0 ∷ 0 ∷ 0 ∷ 3 ∷ 0 ∷ 6 ∷ 71 ∷ 72 ∷ 73 ∷ 179 ∷ 199 ∷ 0 ∷ 8 ∷ 102 ∷ 109
    ∷ 96 ∷ 2 ∷ 0 ∷ 64 ∷ 232 ∷ 197 ∷ 9 ∷ []

checked : validate_fields frame (some (utc 1767225662000000)) ≡ ok tt
unfolding validate_fields timestamp_us_of ◌+ℤ◌ ◌-ℤ◌
checked = refl

encoded : encode_telemetry frame none ≡ ok raw
unfolding encode_telemetry pack crc32_iso_hdlc validate_fields crc32
encoded = refl

decoded : decode_telemetry raw (utc 1767225662000000) ≡ ok frame
decoded =
    decode-encode frame raw none (utc 1767225662000000) encoded
      ((validate_fields_iff frame (some (utc 1767225662000000))).0 checked).1

abbrev delivery : Delivery
delivery = record {
  raw_body = raw;
  peer_certificate_identity = "vendor";
  presented_request_id = none;
  canonical_request_id = none;
  content_type = none;
  received_at = none;
  vendor_sent_at = none;
  receipt_id = none;
}

abbrev receipt : TelemetryDeliveryReceipt
receipt = new_receipt delivery 1 1767225662000000 none

abbrev packet : LogicalTelemetryPacket
packet = record (new_packet receipt (stored_values frame) SequenceDisposition.first (pos 3) 110) {
  packet_id = 80 ∷ [];
}

abbrev job : TelemetryProcessingJob
job = queued_job (new_job 50 (80 ∷ []) 3 110) (109 ∷ []) 120

abbrev queued_db : Db
queued_db = record empty_db { receipts = receipt ∷ []; packets = packet ∷ []; jobs = job ∷ [] }

-- 00000032 stands for the job's number; the dashes are skipped.
abbrev message : QueueMessage
message = record { job_id = b'0' ∷ b'0' ∷ b'-' ∷ b'3' ∷ b'2' ∷ []; packet_id = 80 ∷ [] }

abbrev world : World
world = record {
  redis = record {
    pending = [];
    processing = to_json_bytes message ∷ [];
    failed = [];
    markers = (message.job_id, to_json_bytes message) ∷ [];
  };
  db = queued_db;
}

abbrev describe : WorkerError → String
describe e = "failure"

job_found : get_job (uuid_of 0 message.job_id) queued_db ≡ some job
unfolding find uuid_of
job_found = refl

unprocessed : Unprocessed job queued_db
unfolding find
unprocessed = (refl, refl)

packet_found : get_packet job.packet_id queued_db ≡ some packet
unfolding find bytes_eq
packet_found = refl

receipt_found : get_receipt packet.source_receipt_id queued_db ≡ some receipt
unfolding find
receipt_found = refl

held : 1 ≤ count (to_json_bytes message) world.redis.processing
unfolding count
held = rw (bytes_eq_refl (to_json_bytes message)) (omega arith)

handle_message-Handles_example :
    Handles
      (uuid_of 0 message.job_id)
      frame
      1767225662000000
      message
      world
      (handle_message describe "w1" message 1767225670000000 world)
handle_message-Handles_example =
    handle_message-Handles describe "w1" message 1767225670000000 job packet receipt frame world
      refl job_found refl unprocessed packet_found receipt_found decoded refl held

abbrev work : TelemetryWorkItem
work = work_item (claimed_job job "w1" 60 1767225670000000) packet receipt

evaluate-exact_example :
    (work.values ≡ stored_values frame
      → (a : HealthAssessment) × (assess_health frame (utc work.received_at) ≡ ok a)
        × (evaluate work ≡ ok (result_of frame a)))
    × (work.values ≢ stored_values frame → evaluate work ≡ err mismatch)
evaluate-exact_example = evaluate-exact work frame decoded

-- The lease of w1 ran out, and w2 has claimed the job.
abbrev lost_world : World
lost_world = record world {
  db = record queued_db { jobs = claimed_job job "w2" 60 1767225740000000 ∷ [] };
}

lost_job : get_job work.job_id lost_world.db ≡ some (claimed_job job "w2" 60 1767225740000000)
unfolding find
lost_job = refl

no_result : get_processed job.packet_id lost_world.db ≡ none
unfolding find
no_result = refl

after_evaluation-lost_example :
    after_evaluation describe (evaluate work) work "w1" message 1767225750000000 lost_world
    ≡ stops (storage invalid_delivery_state) lost_world
after_evaluation-lost_example =
    after_evaluation-lost describe (evaluate work) work "w1" message 1767225750000000
      (claimed_job job "w2" 60 1767225740000000) lost_world lost_job no_result refl refl
