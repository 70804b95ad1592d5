-- ===== src/Telemetry/Storage/Acceptance.antt =====
-- storage.py: `accept_packet_and_create_job`, which applies the duplicate and sequence rules to a
-- pending receipt and creates its job.
pub mod Placement
pub mod Replay
use cislunar_ground_platform.Base.{
  ℕ, ◌+◌, ◌-◌, ◌^◌, Bool, true, false, not, ◌&&◌, Option, none, some, List, [], ◌∷◌, Bytes,
  bytes_eq, String, ltb, leb, ◌==◌, if◌then◌else◌, Result, ok, err, ◌>>=◌, ◌>>◌, raise_if, or_raise,
}
use cislunar_ground_platform.Base.Int.{ℤ, pos, ◌+ℤ◌, ◌-ℤ◌, ltb_ℤ, leb_ℤ, wrap32}
use cislunar_ground_platform.Telemetry.Storage.Records.{
  Uuid, Instant, DeliveryValidationStatus, DeliveryQueueStatus, SequenceDisposition,
  ProcessingJobState, Value, TelemetryDeliveryReceipt, LogicalTelemetryPacket,
  TelemetrySequenceState, TelemetryProcessingJob, DecodedTelemetryValues, PacketAcceptanceResult,
  StorageError, value_error, delivery_not_found, invalid_delivery_state,
}
use cislunar_ground_platform.Telemetry.Storage.Tables.{
  Db, find, packet_has_key, sequence_is, get_receipt, save_receipt, save_sequence, add_audit,
  insert_packet, insert_sequence, insert_job,
}
use cislunar_ground_platform.Telemetry.Storage.Deliveries.{retry_once}
use cislunar_ground_platform.Telemetry.Storage.Repeats.{
  max_uint32, half_uint32_range, values_packet_id, identifiers, ground_event, conflict_result,
  earlier_result, accept_existing,
}

-- Where a new packet stands: its disposition and the packets missing before it. `none` says that
-- the packet equals the high-water mark although it has no row.
unfoldable pub place : Option TelemetrySequenceState → ℤ → Option (SequenceDisposition × ℤ)
place none sequence = some (SequenceDisposition.first, sequence)
place (some state) sequence =
    let forward_distance = wrap32 (sequence -ℤ state.high_water_sequence) in
    if forward_distance == 0
    then none
    else if forward_distance == 1
    then some (SequenceDisposition.in_order, pos 0)
    else if ltb forward_distance half_uint32_range
    then some (SequenceDisposition.gap, pos (forward_distance - 1))
    else some (SequenceDisposition.late, pos 0)

abbrev pub new_packet :
    TelemetryDeliveryReceipt
    → DecodedTelemetryValues
    → SequenceDisposition
    → ℤ
    → Instant
    → LogicalTelemetryPacket
new_packet receipt v disposition missing now = record {
  packet_id = values_packet_id v;
  source_receipt_id = receipt.receipt_id;
  protocol_version = v.protocol_version;
  payload_id = v.payload_id;
  boot_id = v.boot_id;
  sequence_number = v.sequence_number;
  sample_timestamp_us = v.sample_timestamp_us;
  temperature_centi_c = v.temperature_centi_c;
  voltage_mv = v.voltage_mv;
  operating_mode = v.operating_mode;
  fault_flags = v.fault_flags;
  raw_sha256 = receipt.body_sha256;
  sequence_disposition = disposition;
  missing_before = missing;
  accepted_at = now;
}

abbrev pub first_state : DecodedTelemetryValues → ℤ → Instant → TelemetrySequenceState
first_state v missing now = record {
  payload_id = v.payload_id;
  boot_id = v.boot_id;
  high_water_sequence = v.sequence_number;
  accepted_packet_count = 1;
  missing_packet_count = missing;
  last_high_water_packet_id = values_packet_id v;
  created_at = now;
  updated_at = now;
}

-- In order and after a gap the mark moves; a late packet is only counted.
unfoldable pub next_state :
    TelemetrySequenceState
    → DecodedTelemetryValues
    → SequenceDisposition
    → ℤ
    → Instant
    → TelemetrySequenceState
next_state state v disposition missing now =
    let counted = record state {
      accepted_packet_count = state.accepted_packet_count + 1;
      updated_at = now;
    } in
    let moved = record counted {
      high_water_sequence = v.sequence_number;
      missing_packet_count = state.missing_packet_count +ℤ missing;
      last_high_water_packet_id = values_packet_id v;
    } in
    elim disposition [
      | SequenceDisposition.in_order ↦ moved
      | SequenceDisposition.gap ↦ moved
      | _ ↦ counted
    ]

unfoldable pub record_sequence :
    Option TelemetrySequenceState
    → DecodedTelemetryValues
    → SequenceDisposition
    → ℤ
    → Instant
    → Db
    → Result StorageError Db
record_sequence none v disposition missing now db = insert_sequence (first_state v missing now) db
record_sequence (some state) v disposition missing now db =
    ok (save_sequence (next_state state v disposition missing now) db)

abbrev pub new_job : Uuid → Bytes → ℕ → Instant → TelemetryProcessingJob
new_job job_id packet_id max_attempts now = record {
  job_id = job_id;
  packet_id = packet_id;
  state = ProcessingJobState.pending_queue;
  queue_message_id = none;
  attempt_count = 0;
  max_attempts = max_attempts;
  claimed_by = none;
  claimed_at = none;
  lease_expires_at = none;
  next_attempt_at = none;
  last_error = none;
  failed_at = none;
  completed_at = none;
  created_at = now;
  updated_at = now;
}

abbrev pub accepted_receipt :
    TelemetryDeliveryReceipt → DecodedTelemetryValues → Instant → TelemetryDeliveryReceipt
accepted_receipt receipt v now = record receipt {
  validation_status = DeliveryValidationStatus.accepted;
  rejection_reason = none;
  parsed_identifiers = some (identifiers v);
  logical_packet_id = some (values_packet_id v);
  queue_status = DeliveryQueueStatus.pending_queue;
  updated_at = now;
}

abbrev pub disposition_name : SequenceDisposition → String
disposition_name SequenceDisposition.first = "FIRST"
disposition_name SequenceDisposition.in_order = "IN_ORDER"
disposition_name SequenceDisposition.gap = "GAP"
disposition_name SequenceDisposition.late = "LATE"

-- The rows of a new packet: packet, sequence state, job, receipt and audit event.
unfoldable pub store_packet :
    TelemetryDeliveryReceipt
    → DecodedTelemetryValues
    → Option TelemetrySequenceState
    → SequenceDisposition
    → ℤ
    → Uuid
    → ℕ
    → String
    → Instant
    → Db
    → Result StorageError (PacketAcceptanceResult × Db)
unfolding record_sequence next_state
store_packet receipt v state disposition missing job_id max_attempts actor now db = do
  with_packet ← insert_packet (new_packet receipt v disposition missing now) db
  with_sequence ← record_sequence state v disposition missing now with_packet
  with_job ← insert_job (new_job job_id (values_packet_id v) max_attempts now) with_sequence
  let event =
      ground_event now "telemetry.packet.accepted" actor "PENDING_QUEUE" none receipt.receipt_id
        (some (values_packet_id v)) (some job_id)
        (("sequence_disposition", Value.text (disposition_name disposition))
          ∷ ("missing_before", Value.integer missing)
          ∷ [])
  ok (
    record {
      receipt_id = receipt.receipt_id;
      packet_id = some (values_packet_id v);
      job_id = some job_id;
      validation_status = DeliveryValidationStatus.accepted;
      queue_status = DeliveryQueueStatus.pending_queue;
      sequence_disposition = some disposition;
      missing_before = missing;
      duplicate = false;
      conflict = false;
      duplicate_of_receipt_id = none;
    },
    add_audit event (save_receipt (accepted_receipt receipt v now) with_job),
  )

abbrev pub state_conflict_receipt :
    TelemetryDeliveryReceipt → DecodedTelemetryValues → Instant → TelemetryDeliveryReceipt
state_conflict_receipt receipt v now = record receipt {
  validation_status = DeliveryValidationStatus.conflict;
  rejection_reason = some "SEQUENCE_STATE_CONFLICT";
  parsed_identifiers = some (identifiers v);
  updated_at = now;
}

-- A high-water value without its packet row is not processed.
unfoldable pub state_conflict :
    TelemetryDeliveryReceipt
    → DecodedTelemetryValues
    → String
    → Instant
    → Db
    → PacketAcceptanceResult × Db
state_conflict receipt v actor now db =
    let changed = state_conflict_receipt receipt v now in
    let event =
      ground_event now "telemetry.sequence.state_conflict" actor "CONFLICT"
        (some "SEQUENCE_STATE_CONFLICT") receipt.receipt_id none none [] in
    (conflict_result receipt.receipt_id none none, add_audit event (save_receipt changed db))

-- The packet where `place` has put it.
unfoldable pub accept_placed :
    Option (SequenceDisposition × ℤ)
    → TelemetryDeliveryReceipt
    → DecodedTelemetryValues
    → Option TelemetrySequenceState
    → Uuid
    → ℕ
    → String
    → Instant
    → Db
    → Result StorageError (PacketAcceptanceResult × Db)
unfolding store_packet state_conflict
accept_placed none receipt v state job_id max_attempts actor now db =
    ok (state_conflict receipt v actor now db)
accept_placed (some (disposition, missing)) receipt v state job_id max_attempts actor now db =
    store_packet receipt v state disposition missing job_id max_attempts actor now db

unfoldable pub accept_new :
    TelemetryDeliveryReceipt
    → DecodedTelemetryValues
    → Uuid
    → ℕ
    → String
    → Instant
    → Db
    → Result StorageError (PacketAcceptanceResult × Db)
unfolding accept_placed place
accept_new receipt v job_id max_attempts actor now db =
    let state = find (sequence_is v.payload_id v.boot_id) db.sequences in
    accept_placed (place state v.sequence_number) receipt v state job_id max_attempts actor now db

-- The packet under its key, where there is one.
unfoldable pub accept_found :
    Option LogicalTelemetryPacket
    → TelemetryDeliveryReceipt
    → DecodedTelemetryValues
    → Uuid
    → ℕ
    → String
    → Instant
    → Db
    → Result StorageError (PacketAcceptanceResult × Db)
unfolding accept_new
accept_found none receipt v job_id max_attempts actor now db =
    accept_new receipt v job_id max_attempts actor now db
accept_found (some existing) receipt v job_id max_attempts actor now db =
    ok (accept_existing receipt existing v actor now db)

unfoldable pub accept_pending :
    TelemetryDeliveryReceipt
    → DecodedTelemetryValues
    → Uuid
    → ℕ
    → String
    → Instant
    → Db
    → Result StorageError (PacketAcceptanceResult × Db)
unfolding accept_found
accept_pending receipt v job_id max_attempts actor now db =
    accept_found (find (packet_has_key v.payload_id v.boot_id v.sequence_number) db.packets) receipt
      v job_id max_attempts actor now db

unfoldable pub accept_by_status :
    DeliveryValidationStatus
    → TelemetryDeliveryReceipt
    → DecodedTelemetryValues
    → Uuid
    → ℕ
    → String
    → Instant
    → Db
    → Result StorageError (PacketAcceptanceResult × Db)
accept_by_status DeliveryValidationStatus.accepted receipt v job_id max_attempts actor now db =
    ok (earlier_result receipt false db, db)
accept_by_status DeliveryValidationStatus.duplicate receipt v job_id max_attempts actor now db =
    ok (earlier_result receipt true db, db)
accept_by_status DeliveryValidationStatus.pending receipt v job_id max_attempts actor now db =
    accept_pending receipt v job_id max_attempts actor now db
accept_by_status _ receipt v job_id max_attempts actor now db = err invalid_delivery_state

-- `_accept_packet_transaction`
unfoldable pub accept_packet_transaction :
    Uuid
    → DecodedTelemetryValues
    → Uuid
    → ℕ
    → String
    → Instant
    → Db
    → Result StorageError (PacketAcceptanceResult × Db)
unfolding accept_by_status accept_pending
accept_packet_transaction receipt_id v job_id max_attempts actor now db = do
  receipt ← or_raise (get_receipt receipt_id db) delivery_not_found
  accept_by_status receipt.validation_status receipt v job_id max_attempts actor now db

-- `fresh` is the random job identifier of each pass, and the rival as in `record_delivery`.
unfoldable pub accept_packet_and_create_job :
    Uuid
    → DecodedTelemetryValues
    → (ℕ → Uuid)
    → ℕ
    → String
    → Instant
    → Option Db
    → Db
    → Result StorageError (PacketAcceptanceResult × Db)
accept_packet_and_create_job receipt_id v fresh max_attempts actor now rival db = do
  raise_if (not (leb_ℤ (pos 0) v.sequence_number && leb_ℤ v.sequence_number (pos max_uint32)))
      value_error
  raise_if (leb_ℤ v.boot_id (pos 0)) value_error
  raise_if (max_attempts == 0) value_error
  retry_once
      (λ attempt. accept_packet_transaction receipt_id v (fresh attempt) max_attempts actor now)
      rival db
