-- ===== src/GroundApi/Responses.antt =====
-- services/ground_api.py: the responses of `receive_payload_data`. Logging and metrics are left out,
-- and so are the texts of exceptions in a response.
use cislunar_ground_platform.Base.{
  ℕ, Bool, true, false, Option, none, some, [], ◌∷◌, Bytes, String, Result, ok, err,
}
use cislunar_ground_platform.Telemetry.Codec as Codec
use cislunar_ground_platform.Telemetry.Codec.{
  TelemetryFrame, CodecError, TelemetryRejectionReason, decode_telemetry,
}
use cislunar_ground_platform.Telemetry.Storage.Records.{
  Uuid, DeliveryValidationStatus, DeliveryQueueStatus, Value, Json, TelemetryDeliveryReceipt,
  TelemetryAuditEvent, DecodedTelemetryValues,
}
use cislunar_ground_platform.Telemetry.World.{World}
use cislunar_ground_platform.GroundApi.Requests.{ApiError, redis_error, database_error, Request}
use cislunar_ground_platform.GroundApi.Calls.{Env, Api}

abbrev pub vendor_identity : String
vendor_identity = "local-token:vendor-simulator"

pub record Response : Type 0 where
  pub status_code : ℕ
  pub content : Json

abbrev pub respond : ℕ → Json → Response
respond status_code content = record { status_code = status_code; content = content }

abbrev pub lift : {A : Type 0} → Result ApiError A → Api A
lift result w = (result, w)

abbrev pub text_or_null : Option String → Value
text_or_null none = Value.null
text_or_null (some s) = Value.text s

abbrev pub packet_or_null : Option Bytes → Value
packet_or_null none = Value.null
packet_or_null (some packet_id) = Value.code_points packet_id

-- `_telemetry_values`
abbrev pub telemetry_values : TelemetryFrame → DecodedTelemetryValues
telemetry_values frame = record {
  protocol_version = frame.protocol_version;
  payload_id = frame.payload_id;
  boot_id = frame.boot_id;
  sequence_number = frame.sequence_number;
  sample_timestamp_us = frame.timestamp_us;
  temperature_centi_c = frame.temperature_centi_c;
  voltage_mv = frame.voltage_mv;
  operating_mode = frame.operating_mode;
  fault_flags = frame.fault_flags;
}

-- `reason.value`
abbrev pub reason_value : TelemetryRejectionReason → String
reason_value Codec.empty_body = "EMPTY_BODY"
reason_value Codec.unsupported_protocol_version = "UNSUPPORTED_PROTOCOL_VERSION"
reason_value Codec.invalid_frame_length = "INVALID_FRAME_LENGTH"
reason_value Codec.crc_mismatch = "CRC_MISMATCH"
reason_value Codec.unsupported_payload_id = "UNSUPPORTED_PAYLOAD_ID"
reason_value Codec.invalid_boot_id = "INVALID_BOOT_ID"
reason_value Codec.timestamp_before_project_epoch = "TIMESTAMP_BEFORE_PROJECT_EPOCH"
reason_value Codec.timestamp_too_far_in_future = "TIMESTAMP_TOO_FAR_IN_FUTURE"
reason_value Codec.temperature_out_of_range = "TEMPERATURE_OUT_OF_RANGE"
reason_value Codec.voltage_out_of_range = "VOLTAGE_OUT_OF_RANGE"
reason_value Codec.invalid_operating_mode = "INVALID_OPERATING_MODE"
reason_value Codec.reserved_fault_bits_set = "RESERVED_FAULT_BITS_SET"

-- `except SQLAlchemyError` of `_audit_safely`
abbrev pub suppress_database :
    Result ApiError (Unit {0}) × World → Result ApiError (Unit {0}) × World
suppress_database (err database_error, w) = (ok tt, w)
suppress_database (result, w) = (result, w)

-- The handlers of the exceptions in `receive_payload_data`; any other exception leaves it.
abbrev pub handle_outage : Result ApiError Response × World → Result ApiError Response × World
handle_outage (err redis_error, w) = (
  ok (
      respond 503
        (("status", Value.text "PENDING_QUEUE") ∷ ("reason", Value.text "REDIS_UNAVAILABLE") ∷ [])),
  w,
)
handle_outage (err database_error, w) = (
  ok (
      respond 503 (
        ("status", Value.text "UNAVAILABLE")
        ∷ ("reason", Value.text "POSTGRESQL_UNAVAILABLE")
        ∷ [])),
  w,
)
handle_outage (result, w) = (result, w)

-- The event of a request that is refused at the boundary.
abbrev pub boundary_event : Env → String → String → String → Request → TelemetryAuditEvent
boundary_event env event_name actor reason request = record {
  occurred_at = env.now;
  service_name = "ground-api";
  event_name = event_name;
  actor_identity = actor;
  outcome = "REJECTED";
  reason = some reason;
  receipt_id = none;
  packet_id = none;
  job_id = none;
  event_data = ("presented_request_id", text_or_null request.request_id) ∷ [];
}

abbrev pub rejected_content : Uuid → String → Json
rejected_content receipt_id reason =
    ("receipt_id", Value.uuid receipt_id)
    ∷ ("status", Value.text "REJECTED")
    ∷ ("reason", Value.text reason)
    ∷ []

abbrev pub conflict_content : Uuid → String → Json
conflict_content receipt_id reason =
    ("receipt_id", Value.uuid receipt_id)
    ∷ ("status", Value.text "CONFLICT")
    ∷ ("reason", Value.text reason)
    ∷ []

abbrev pub packet_content : Uuid → Option Bytes → String → Bool → Json
packet_content receipt_id packet_id status duplicate =
    ("receipt_id", Value.uuid receipt_id)
    ∷ ("packet_id", packet_or_null packet_id)
    ∷ ("status", Value.text status)
    ∷ ("duplicate", Value.flag duplicate)
    ∷ []

abbrev pub replayed : Json → Json
replayed [] = ("request_replay", Value.flag true) ∷ []
replayed (m ∷ ms) = m ∷ replayed ms

abbrev pub queued_response : TelemetryDeliveryReceipt → Bool → Response
queued_response r duplicate =
    respond 200 (replayed (packet_content r.receipt_id r.logical_packet_id "QUEUED" duplicate))

unfoldable pub settled_by :
    DeliveryValidationStatus → DeliveryQueueStatus → TelemetryDeliveryReceipt → Option Response
settled_by DeliveryValidationStatus.rejected _ r = some (
    respond 422 (
      ("receipt_id", Value.uuid r.receipt_id)
      ∷ ("status", Value.text "REJECTED")
      ∷ ("reason", text_or_null r.rejection_reason)
      ∷ ("request_replay", Value.flag true)
      ∷ []))
settled_by DeliveryValidationStatus.accepted DeliveryQueueStatus.queued r =
    some (queued_response r false)
settled_by DeliveryValidationStatus.duplicate DeliveryQueueStatus.queued r =
    some (queued_response r true)
settled_by _ _ r = none

-- The answer to an exact retry of a request that is settled: rejected, or queued.
unfoldable pub settled_response : TelemetryDeliveryReceipt → Option Response
unfolding settled_by
settled_response r = settled_by r.validation_status r.queue_status r

-- An accepted packet that still waits for the queue.
unfoldable pub waiting_packet : TelemetryDeliveryReceipt → Option Bytes
waiting_packet r = elim r.validation_status [
  | DeliveryValidationStatus.accepted ↦ elim r.queue_status [
    | DeliveryQueueStatus.pending_queue ↦ r.logical_packet_id
    | _ ↦ none
  ]
  | _ ↦ none
]

abbrev pub waiting : Option TelemetryDeliveryReceipt → Option Bytes
waiting none = none
waiting (some r) = waiting_packet r

abbrev pub is_pending_queue : DeliveryQueueStatus → Bool
is_pending_queue DeliveryQueueStatus.pending_queue = true
is_pending_queue _ = false
