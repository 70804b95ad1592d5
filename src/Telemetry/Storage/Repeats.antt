-- ===== src/Telemetry/Storage/Repeats.antt =====
-- storage.py, `_accept_packet_transaction`: a receipt that was decided before, and a delivery under
-- a packet key that exists.
use cislunar_ground_platform.Base.{
  ℕ, ◌^◌, Bool, true, false, ◌&&◌, Option, none, some, [], ◌∷◌, Bytes, bytes_eq, String,
  if◌then◌else◌,
}
use cislunar_ground_platform.Base.Int.{pos}
use cislunar_ground_platform.Telemetry.Codec.{packet_id_text}
use cislunar_ground_platform.Telemetry.Storage.Records.{
  Uuid, Instant, DeliveryValidationStatus, DeliveryQueueStatus, ProcessingJobState, Value, Json,
  TelemetryDeliveryReceipt, LogicalTelemetryPacket, TelemetryProcessingJob, TelemetryAuditEvent,
  DecodedTelemetryValues, PacketAcceptanceResult,
}
use cislunar_ground_platform.Telemetry.Storage.Tables.{
  Db, get_receipt, get_packet, get_job_for_packet, save_receipt, add_audit,
}

abbrev pub max_uint32 : ℕ
max_uint32 = 0xFFFFFFFF

abbrev pub half_uint32_range : ℕ
half_uint32_range = 2 ^ 31

-- `DecodedTelemetryValues.packet_id`
abbrev pub values_packet_id : DecodedTelemetryValues → Bytes
values_packet_id v = packet_id_text v.payload_id v.boot_id v.sequence_number

-- `DecodedTelemetryValues.identifiers`
abbrev pub identifiers : DecodedTelemetryValues → Json
identifiers v =
    ("packet_id", Value.code_points (values_packet_id v))
    ∷ ("protocol_version", Value.integer v.protocol_version)
    ∷ ("payload_id", Value.integer v.payload_id)
    ∷ ("boot_id", Value.integer v.boot_id)
    ∷ ("sequence_number", Value.integer v.sequence_number)
    ∷ ("sample_timestamp_us", Value.integer v.sample_timestamp_us)
    ∷ []

abbrev pub job_state_to_queue_status : ProcessingJobState → DeliveryQueueStatus
job_state_to_queue_status ProcessingJobState.pending_queue = DeliveryQueueStatus.pending_queue
job_state_to_queue_status _ = DeliveryQueueStatus.queued

abbrev pub job_id_of : Option TelemetryProcessingJob → Option Uuid
job_id_of none = none
job_id_of (some job) = some job.job_id

abbrev pub queue_status_of :
    Option TelemetryProcessingJob → DeliveryQueueStatus → DeliveryQueueStatus
queue_status_of none otherwise = otherwise
queue_status_of (some job) otherwise = job_state_to_queue_status job.state

abbrev pub get_packet? : Option Bytes → Db → Option LogicalTelemetryPacket
get_packet? none db = none
get_packet? (some packet_id) db = get_packet packet_id db

abbrev pub get_job? : Option Bytes → Db → Option TelemetryProcessingJob
get_job? none db = none
get_job? (some packet_id) db = get_job_for_packet packet_id db

-- A receipt that was decided before gives its earlier result again.
unfoldable pub earlier_result : TelemetryDeliveryReceipt → Bool → Db → PacketAcceptanceResult
earlier_result receipt duplicate db =
    let packet = get_packet? receipt.logical_packet_id db in
    let job = get_job? receipt.logical_packet_id db in
    record {
      receipt_id = receipt.receipt_id;
      packet_id = receipt.logical_packet_id;
      job_id = job_id_of job;
      validation_status = receipt.validation_status;
      queue_status = queue_status_of job receipt.queue_status;
      sequence_disposition = elim packet [ none ↦ none | some p ↦ some p.sequence_disposition ];
      missing_before = elim packet [ none ↦ pos 0 | some p ↦ p.missing_before ];
      duplicate = duplicate;
      conflict = false;
      duplicate_of_receipt_id = receipt.duplicate_of_receipt_id;
    }

abbrev pub ground_event :
    Instant
    → String
    → String
    → String
    → Option String
    → Uuid
    → Option Bytes
    → Option Uuid
    → Json
    → TelemetryAuditEvent
ground_event now event_name actor outcome reason receipt_id packet_id job_id members = record {
  occurred_at = now;
  service_name = "ground-api";
  event_name = event_name;
  actor_identity = actor;
  outcome = outcome;
  reason = reason;
  receipt_id = some receipt_id;
  packet_id = packet_id;
  job_id = job_id;
  event_data = members;
}

-- The receipt after a delivery under a known key, before its status is set.
abbrev pub repeated_receipt :
    TelemetryDeliveryReceipt
    → LogicalTelemetryPacket
    → DecodedTelemetryValues
    → Instant
    → TelemetryDeliveryReceipt
repeated_receipt receipt existing values now = record receipt {
  logical_packet_id = some existing.packet_id;
  duplicate_of_receipt_id = some existing.source_receipt_id;
  parsed_identifiers = some (identifiers values);
  updated_at = now;
}

abbrev pub duplicate_receipt :
    TelemetryDeliveryReceipt
    → LogicalTelemetryPacket
    → DecodedTelemetryValues
    → Instant
    → TelemetryDeliveryReceipt
duplicate_receipt receipt existing values now =
    record (repeated_receipt receipt existing values now) {
      validation_status = DeliveryValidationStatus.duplicate;
      queue_status = DeliveryQueueStatus.not_applicable;
      rejection_reason = none;
    }

abbrev pub conflict_receipt :
    TelemetryDeliveryReceipt
    → LogicalTelemetryPacket
    → DecodedTelemetryValues
    → Instant
    → TelemetryDeliveryReceipt
conflict_receipt receipt existing values now =
    record (repeated_receipt receipt existing values now) {
      validation_status = DeliveryValidationStatus.conflict;
      queue_status = DeliveryQueueStatus.not_applicable;
      rejection_reason = some "SEQUENCE_CONFLICT";
    }

unfoldable pub accept_duplicate :
    TelemetryDeliveryReceipt
    → LogicalTelemetryPacket
    → DecodedTelemetryValues
    → String
    → Instant
    → Db
    → PacketAcceptanceResult × Db
accept_duplicate receipt existing values actor now db =
    let job = get_job_for_packet existing.packet_id db in
    let changed = duplicate_receipt receipt existing values now in
    let event =
      ground_event now "telemetry.delivery.duplicate" actor "DUPLICATE" none receipt.receipt_id
        (some existing.packet_id) (job_id_of job)
        (("original_receipt_id", Value.uuid existing.source_receipt_id) ∷ []) in
    (
      record {
        receipt_id = receipt.receipt_id;
        packet_id = some existing.packet_id;
        job_id = job_id_of job;
        validation_status = DeliveryValidationStatus.duplicate;
        queue_status = queue_status_of job DeliveryQueueStatus.not_applicable;
        sequence_disposition = some existing.sequence_disposition;
        missing_before = existing.missing_before;
        duplicate = true;
        conflict = false;
        duplicate_of_receipt_id = some existing.source_receipt_id;
      },
      add_audit event (save_receipt changed db),
    )

abbrev pub conflict_result : Uuid → Option Bytes → Option Uuid → PacketAcceptanceResult
conflict_result receipt_id packet_id original = record {
  receipt_id = receipt_id;
  packet_id = packet_id;
  job_id = none;
  validation_status = DeliveryValidationStatus.conflict;
  queue_status = DeliveryQueueStatus.not_applicable;
  sequence_disposition = none;
  missing_before = pos 0;
  duplicate = false;
  conflict = true;
  duplicate_of_receipt_id = original;
}

unfoldable pub accept_conflict :
    TelemetryDeliveryReceipt
    → LogicalTelemetryPacket
    → DecodedTelemetryValues
    → String
    → Instant
    → Db
    → PacketAcceptanceResult × Db
accept_conflict receipt existing values actor now db =
    let changed = conflict_receipt receipt existing values now in
    let event =
      ground_event now "telemetry.delivery.sequence_conflict" actor "CONFLICT"
        (some "SEQUENCE_CONFLICT") receipt.receipt_id (some existing.packet_id) none [] in
    (
      conflict_result receipt.receipt_id (some existing.packet_id)
          (some existing.source_receipt_id),
      add_audit event (save_receipt changed db),
    )

-- The bytes of the packet's source receipt are those of this one.
abbrev pub is_exact_duplicate : TelemetryDeliveryReceipt → LogicalTelemetryPacket → Db → Bool
is_exact_duplicate receipt existing db = elim (get_receipt existing.source_receipt_id db) [
  | none ↦ false
  | some origin ↦
      bytes_eq existing.raw_sha256 receipt.body_sha256 && bytes_eq origin.raw_body receipt.raw_body
]

unfoldable pub accept_existing :
    TelemetryDeliveryReceipt
    → LogicalTelemetryPacket
    → DecodedTelemetryValues
    → String
    → Instant
    → Db
    → PacketAcceptanceResult × Db
accept_existing receipt existing values actor now db =
    if is_exact_duplicate receipt existing db
    then accept_duplicate receipt existing values actor now db
    else accept_conflict receipt existing values actor now db
