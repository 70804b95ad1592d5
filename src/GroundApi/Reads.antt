-- ===== src/GroundApi/Reads.antt =====
-- services/ground_api.py: the routes that read. A time stands for its ISO text.
use cislunar_ground_platform.Base.{
  ℕ, Bool, true, false, not, Option, none, some, List, [], ◌∷◌, ◌++◌, Bytes, String, Result, err,
  raise_if, if◌then◌else◌,
}
use cislunar_ground_platform.Base.Int.{pos_part}
use cislunar_ground_platform.Std.Format.{format_int}
use cislunar_ground_platform.Std.Text.{codes}
use cislunar_ground_platform.Std.Uuid.{hex}
use cislunar_ground_platform.Telemetry.Queue.Messages.{full_match, packet_pattern}
use cislunar_ground_platform.Telemetry.Settings.{GroundSettings}
use cislunar_ground_platform.Telemetry.Storage.Records.{
  Value, Json, SequenceDisposition, ProcessingJobState, HealthClassification,
  TelemetryDeliveryReceipt, LogicalTelemetryPacket, TelemetryProcessingJob, ProcessedTelemetry,
  TelemetryAuditEvent,
}
use cislunar_ground_platform.Telemetry.Storage.Tables.{
  get_packet, get_receipt, get_processed, get_job_for_packet,
}
use cislunar_ground_platform.Telemetry.Storage.Queries.{list_audit_events}
use cislunar_ground_platform.Telemetry.World.{World}
use cislunar_ground_platform.GroundApi.Requests.{
  ApiError, runtime_error, database_error, http, Identity, operator, administrator, bearer_identity,
}
use cislunar_ground_platform.GroundApi.Responses.{Response, respond, lift}
use cislunar_ground_platform.GroundApi.Calls.{
  Call, Env, Api, ◌>>=◌, ◌>>◌, return, raise, from_read, transaction, query,
}

abbrev disposition_value : SequenceDisposition → String
disposition_value SequenceDisposition.first = "FIRST"
disposition_value SequenceDisposition.in_order = "IN_ORDER"
disposition_value SequenceDisposition.gap = "GAP"
disposition_value SequenceDisposition.late = "LATE"

abbrev state_value : ProcessingJobState → String
state_value ProcessingJobState.pending_queue = "PENDING_QUEUE"
state_value ProcessingJobState.queued = "QUEUED"
state_value ProcessingJobState.processing = "PROCESSING"
state_value ProcessingJobState.retry_wait = "RETRY_WAIT"
state_value ProcessingJobState.complete = "COMPLETE"
state_value ProcessingJobState.failed = "FAILED"

abbrev classification_value : HealthClassification → String
classification_value HealthClassification.nominal = "NOMINAL"
classification_value HealthClassification.warning = "WARNING"
classification_value HealthClassification.critical = "CRITICAL"

-- `except SQLAlchemyError`
abbrev pub or_unavailable : {A : Type 0} → Result ApiError A × World → Result ApiError A × World
or_unavailable (err database_error, w) = (err (http 503), w)
or_unavailable (result, w) = (result, w)

-- The checks before a route reads a message: the bearer, then the form of the identifier.
unfoldable pub check_message : Option Bytes → GroundSettings → Bytes → Api (Unit {0})
unfolding bearer_identity full_match packet_pattern
check_message authorization settings message_id = do
  identity ← lift (bearer_identity authorization settings)
  lift (raise_if (not (full_match packet_pattern message_id)) (http 404))

abbrev pub or_not_found : {A : Type 0} → Option A → Api A
or_not_found none = raise (http 404)
or_not_found (some a) = return a

abbrev job_state : Option TelemetryProcessingJob → Value
job_state none = Value.null
job_state (some job) = Value.text (state_value job.state)

abbrev pub raw_content :
    LogicalTelemetryPacket → TelemetryDeliveryReceipt → Option TelemetryProcessingJob → Json
raw_content packet receipt job =
    ("message_id", Value.code_points packet.packet_id)
    ∷ ("receipt_id", Value.uuid receipt.receipt_id)
    ∷ ("raw_hex", Value.code_points (hex receipt.raw_body))
    ∷ ("body_sha256", Value.code_points receipt.body_sha256)
    ∷ ("received_at", Value.moment (some receipt.received_at))
    ∷ ("protocol_version", Value.integer packet.protocol_version)
    ∷ ("payload_id", Value.code_points (codes "PAYLOAD-" ++ format_int 9 2 packet.payload_id))
    ∷ ("boot_id", Value.integer packet.boot_id)
    ∷ ("sequence_number", Value.integer packet.sequence_number)
    ∷ ("sample_time", Value.moment (some (pos_part packet.sample_timestamp_us)))
    ∷ ("sequence_disposition", Value.text (disposition_value packet.sequence_disposition))
    ∷ ("missing_before", Value.integer packet.missing_before)
    ∷ ("processing_state", job_state job)
    ∷ []

unfoldable pub raw_answer :
    LogicalTelemetryPacket
    → Option TelemetryDeliveryReceipt
    → Option TelemetryProcessingJob
    → Api Response
raw_answer packet none job = raise runtime_error
raw_answer packet (some receipt) job = return (respond 200 (raw_content packet receipt job))

abbrev failed_state : Option TelemetryProcessingJob → Bool
failed_state none = false
failed_state (some job) = elim job.state [ ProcessingJobState.failed ↦ true | _ ↦ false ]

abbrev known_state : Option TelemetryProcessingJob → Value
known_state none = Value.text "UNKNOWN"
known_state (some job) = Value.text (state_value job.state)

abbrev pub processed_content : ProcessedTelemetry → Json
processed_content p =
    ("message_id", Value.code_points p.packet_id)
    ∷ ("temperature_c", Value.quotient p.result.temperature_c 100)
    ∷ ("voltage_v", Value.quotient p.result.voltage_v 1000)
    ∷ ("operating_mode", Value.text p.result.operating_mode)
    ∷ ("fault_names", Value.texts p.result.fault_names)
    ∷ ("classification", Value.text (classification_value p.result.classification))
    ∷ ("freshness", Value.text (if p.result.is_stale then "STALE" else "CURRENT"))
    ∷ ("processor_version", Value.text p.result.processor_version)
    ∷ ("processed_at", Value.moment (some p.processed_at))
    ∷ []

unfoldable pub processed_answer :
    Bytes → Option ProcessedTelemetry → Option TelemetryProcessingJob → Response
processed_answer message_id (some processed) job = respond 200 (processed_content processed)
processed_answer message_id none job =
    respond (if failed_state job then 422 else 202)
      (("message_id", Value.code_points message_id) ∷ ("processing_state", known_state job) ∷ [])

module _ (env : Env) where
  unfoldable pub with_source :
      Bytes → LogicalTelemetryPacket → Option TelemetryDeliveryReceipt → Api Response
  unfolding query raw_answer
  with_source message_id packet receipt = do
    job ← query env Call.reads_job (get_job_for_packet message_id)
    raw_answer packet receipt job

  unfoldable pub with_packet : Bytes → LogicalTelemetryPacket → Api Response
  unfolding query with_source
  with_packet message_id packet = do
    receipt ← query env Call.reads_source (get_receipt packet.source_receipt_id)
    with_source message_id packet receipt

  unfoldable pub read_packet : Bytes → Api LogicalTelemetryPacket
  unfolding query
  read_packet message_id = do
    packet ← query env Call.reads_packet (get_packet message_id)
    or_not_found packet

  unfoldable pub read_raw : Bytes → Api Response
  unfolding read_packet with_packet
  read_raw message_id = do packet ← read_packet message_id; with_packet message_id packet

  -- `get_raw_payload`
  unfoldable pub get_raw_payload : GroundSettings → Bytes → Option Bytes → Api Response
  unfolding check_message read_raw
  get_raw_payload settings message_id authorization = do
    check_message authorization settings message_id
    λ w. or_unavailable (read_raw message_id w)

  unfoldable pub read_processed : Bytes → Api Response
  unfolding query read_packet processed_answer
  read_processed message_id = do
    packet ← read_packet message_id
    processed ← query env Call.reads_result (get_processed message_id)
    job ← query env Call.reads_job (get_job_for_packet message_id)
    return (processed_answer message_id processed job)

  -- `get_processed_payload`
  unfoldable pub get_processed_payload : GroundSettings → Bytes → Option Bytes → Api Response
  unfolding check_message read_processed
  get_processed_payload settings message_id authorization = do
    check_message authorization settings message_id
    λ w. or_unavailable (read_processed message_id w)

  -- `get_audit_events`, for an administrator.
  unfoldable pub audit_for : Identity → ℕ → Api (List TelemetryAuditEvent)
  unfolding transaction list_audit_events
  audit_for operator limit w = (err (http 403), w)
  audit_for administrator limit w =
      or_unavailable
        (transaction env Call.reads_events (λ db. from_read (list_audit_events limit db) db) w)

  unfoldable pub get_audit_events :
      GroundSettings → ℕ → Option Bytes → Api (List TelemetryAuditEvent)
  unfolding bearer_identity audit_for
  get_audit_events settings limit authorization = do
    identity ← lift (bearer_identity authorization settings)
    audit_for identity limit
