-- ===== src/Telemetry/Storage/Jobs.antt =====
-- storage.py: `mark_job_queued` and `claim_processing_job`.
pub mod Lifecycle
pub mod Handout
pub mod Retries
pub mod Results
use cislunar_ground_platform.Base.{
  ℕ, ◌+◌, ◌-◌, ◌*◌, ◌^◌, min, Bool, true, false, not, ◌&&◌, ◌||◌, Option, none, some, List, [], ◌∷◌,
  Bytes, String, str_eq, ltb, leb, ◌==◌, if◌then◌else◌, map, Result, ok, err, ◌>>=◌, ◌>>◌, raise_if,
  or_raise, bytes_eq,
}
use cislunar_ground_platform.Base.Int.{ℤ, pos, eqb_ℤ}
use cislunar_ground_platform.Telemetry.Storage.Records.{
  Uuid, Instant, DeliveryValidationStatus, DeliveryQueueStatus, ProcessingJobState, Value, Json,
  HealthClassification, TelemetryDeliveryReceipt, LogicalTelemetryPacket, TelemetryProcessingJob,
  ProcessedTelemetry, ProcessingResultValues, TelemetryAuditEvent, DecodedTelemetryValues,
  TelemetryWorkItem, ProcessingFailureResult, StorageError, value_error, storage_error,
  invalid_delivery_state, processing_job_not_found, processing_result_conflict,
}
use cislunar_ground_platform.Telemetry.Storage.Tables.{
  Db, get_job, get_receipt, get_packet, get_processed, save_job, add_audit, insert_processed,
}

abbrev pub job_event :
    Instant
    → String
    → String
    → String
    → String
    → Option String
    → Option Uuid
    → Bytes
    → Uuid
    → Json
    → TelemetryAuditEvent
job_event now service event_name actor outcome reason receipt_id packet_id job_id members = record {
  occurred_at = now;
  service_name = service;
  event_name = event_name;
  actor_identity = actor;
  outcome = outcome;
  reason = reason;
  receipt_id = receipt_id;
  packet_id = some packet_id;
  job_id = some job_id;
  event_data = members;
}

abbrev pub text_is : String → Option String → Bool
text_is s none = false
text_is s (some t) = str_eq t s

-- The queue message identifier, as code points.
abbrev pub codes_are : Bytes → Option Bytes → Bool
codes_are s none = false
codes_are s (some t) = bytes_eq t s

abbrev pub accepted_for : Bytes → TelemetryDeliveryReceipt → Bool
accepted_for packet_id r = elim r.validation_status [
  | DeliveryValidationStatus.accepted ↦ elim r.logical_packet_id [
    | none ↦ false
    | some p ↦ bytes_eq p packet_id
  ]
  | _ ↦ false
]

abbrev pub queued_receipt : Instant → TelemetryDeliveryReceipt → TelemetryDeliveryReceipt
queued_receipt now r = record r { queue_status = DeliveryQueueStatus.queued; updated_at = now }

-- The accepted receipts of the packet show that their job was queued.
abbrev pub mark_receipt : Bytes → Instant → TelemetryDeliveryReceipt → TelemetryDeliveryReceipt
mark_receipt packet_id now r = if accepted_for packet_id r then queued_receipt now r else r

abbrev pub queued_job : TelemetryProcessingJob → Bytes → Instant → TelemetryProcessingJob
queued_job job queue_message_id now = record job {
  state = ProcessingJobState.queued;
  queue_message_id = some queue_message_id;
  next_attempt_at = none;
  updated_at = now;
}

unfoldable pub enqueue_job : TelemetryProcessingJob → Bytes → String → Instant → Db → Bool × Db
enqueue_job job queue_message_id actor now db =
    let event =
      job_event now "ground-api" "telemetry.processing.queued" actor "QUEUED" none none
        job.packet_id job.job_id (("queue_message_id", Value.code_points queue_message_id) ∷ []) in
    let saved = save_job (queued_job job queue_message_id now) db in
    (
      true,
      add_audit event
          (record saved { receipts = map (mark_receipt job.packet_id now) saved.receipts }),
    )

unfoldable pub mark_by_state :
    ProcessingJobState
    → TelemetryProcessingJob
    → Bytes
    → String
    → Instant
    → Db
    → Result StorageError (Bool × Db)
unfolding enqueue_job
mark_by_state ProcessingJobState.queued job queue_message_id actor now db = do
  raise_if (not (codes_are queue_message_id job.queue_message_id)) invalid_delivery_state
  ok (false, db)
mark_by_state ProcessingJobState.pending_queue job queue_message_id actor now db =
    ok (enqueue_job job queue_message_id actor now db)
mark_by_state ProcessingJobState.retry_wait job queue_message_id actor now db =
    ok (enqueue_job job queue_message_id actor now db)
mark_by_state _ job queue_message_id actor now db = err invalid_delivery_state

unfoldable pub mark_job_queued :
    Uuid → Bytes → String → Instant → Db → Result StorageError (Bool × Db)
unfolding mark_by_state
mark_job_queued job_id queue_message_id actor now db = do
  job ← or_raise (get_job job_id db) processing_job_not_found
  mark_by_state job.state job queue_message_id actor now db

-- A time that is set and has come.
abbrev pub is_due : Option Instant → Instant → Bool
is_due none now = false
is_due (some t) now = leb t now

-- Queued, or a lease that ran out, or a retry whose time has come.
abbrev pub is_claimable : TelemetryProcessingJob → Instant → Bool
is_claimable job now = elim job.state [
  | ProcessingJobState.queued ↦ true
  | ProcessingJobState.processing ↦ is_due job.lease_expires_at now
  | ProcessingJobState.retry_wait ↦ is_due job.next_attempt_at now
  | _ ↦ false
]

abbrev pub is_complete : ProcessingJobState → Bool
is_complete ProcessingJobState.complete = true
is_complete _ = false

abbrev pub claimed_job : TelemetryProcessingJob → String → ℕ → Instant → TelemetryProcessingJob
claimed_job job worker_id lease_seconds now = record job {
  state = ProcessingJobState.processing;
  attempt_count = job.attempt_count + 1;
  claimed_by = some worker_id;
  claimed_at = some now;
  lease_expires_at = some (now + lease_seconds * 1000000);
  next_attempt_at = none;
  updated_at = now;
}

abbrev pub packet_values : LogicalTelemetryPacket → DecodedTelemetryValues
packet_values p = record {
  protocol_version = p.protocol_version;
  payload_id = p.payload_id;
  boot_id = p.boot_id;
  sequence_number = p.sequence_number;
  sample_timestamp_us = p.sample_timestamp_us;
  temperature_centi_c = p.temperature_centi_c;
  voltage_mv = p.voltage_mv;
  operating_mode = p.operating_mode;
  fault_flags = p.fault_flags;
}

abbrev pub work_item :
    TelemetryProcessingJob → LogicalTelemetryPacket → TelemetryDeliveryReceipt → TelemetryWorkItem
work_item job packet receipt = record {
  job_id = job.job_id;
  packet_id = packet.packet_id;
  raw_body = receipt.raw_body;
  received_at = receipt.received_at;
  values = packet_values packet;
  attempt_count = job.attempt_count;
  max_attempts = job.max_attempts;
}

unfoldable pub claim_work :
    TelemetryProcessingJob
    → String
    → ℕ
    → Instant
    → Db
    → Result StorageError (Option TelemetryWorkItem × Db)
claim_work job worker_id lease_seconds now db = do
  packet ← or_raise (get_packet job.packet_id db) storage_error
  receipt ← or_raise (get_receipt packet.source_receipt_id db) storage_error
  let claimed = claimed_job job worker_id lease_seconds now
  let event =
      job_event now "payload-worker" "telemetry.processing.claimed" worker_id "PROCESSING" none
        (some receipt.receipt_id) packet.packet_id job.job_id
        (("attempt_count", Value.integer (pos claimed.attempt_count)) ∷ [])
  ok (some (work_item claimed packet receipt), add_audit event (save_job claimed db))

-- The result exists: the job is complete, also where its row does not say so yet.
abbrev pub settle : TelemetryProcessingJob → ProcessedTelemetry → Instant → TelemetryProcessingJob
settle job existing now = record job {
  state = ProcessingJobState.complete;
  completed_at = some existing.processed_at;
  lease_expires_at = none;
  updated_at = now;
}

unfoldable pub claim_or_settle :
    Option ProcessedTelemetry
    → TelemetryProcessingJob
    → String
    → ℕ
    → Instant
    → Db
    → Result StorageError (Option TelemetryWorkItem × Db)
unfolding claim_work
claim_or_settle (some existing) job worker_id lease_seconds now db =
    ok (none, if is_complete job.state then db else save_job (settle job existing now) db)
claim_or_settle none job worker_id lease_seconds now db =
    if is_claimable job now then claim_work job worker_id lease_seconds now db else ok (none, db)

unfoldable pub claim_processing_job :
    Uuid → String → ℕ → Instant → Db → Result StorageError (Option TelemetryWorkItem × Db)
unfolding claim_or_settle
claim_processing_job job_id worker_id lease_seconds now db = do
  raise_if (str_eq worker_id "") value_error
  raise_if (lease_seconds == 0) value_error
  job ← or_raise (get_job job_id db) processing_job_not_found
  claim_or_settle (get_processed job.packet_id db) job worker_id lease_seconds now db
