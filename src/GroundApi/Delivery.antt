-- ===== src/GroundApi/Delivery.antt =====
-- services/ground_api.py: `receive_payload_data`, with `_queue_one` and `_audit_safely`.
use cislunar_ground_platform.Base.{
  ℕ, Bool, true, false, not, Option, none, some, [], ◌∷◌, Bytes, String, if◌then◌else◌, ◌==◌,
  Result, ok, err,
}
use cislunar_ground_platform.Base.Int.{pos_part}
use cislunar_ground_platform.Std.Datetime.{utc}
use cislunar_ground_platform.Std.Uuid.{uuid_text}
use cislunar_ground_platform.Telemetry.Codec as Codec
use cislunar_ground_platform.Telemetry.Codec.{
  TelemetryFrame, CodecError, TelemetryRejectionReason, decode_telemetry,
}
use cislunar_ground_platform.Telemetry.Queue.Messages.{queue_message}
use cislunar_ground_platform.Telemetry.Queue.Lists.{enqueue}
use cislunar_ground_platform.Telemetry.Settings.{GroundSettings}
use cislunar_ground_platform.Telemetry.Storage.Records.{
  Uuid, Value, TelemetryDeliveryReceipt, TelemetryProcessingJob, TelemetryAuditEvent,
  DeliveryRecordResult, PacketAcceptanceResult,
}
use cislunar_ground_platform.Telemetry.Storage.Tables.{get_receipt, get_job_for_packet}
use cislunar_ground_platform.Telemetry.Storage.Deliveries.{
  Delivery, record_delivery, reject_delivery,
}
use cislunar_ground_platform.Telemetry.Storage.Acceptance.{accept_packet_and_create_job}
use cislunar_ground_platform.Telemetry.Storage.Jobs.{mark_job_queued}
use cislunar_ground_platform.Telemetry.Storage.Queries.{record_audit_event}
use cislunar_ground_platform.GroundApi.Requests.{
  ApiError, codec, runtime_error, http, Request, canonical_uuid4_of, bounded_body, vendor_is_known,
  is_octet_stream,
}
use cislunar_ground_platform.GroundApi.Calls.{
  Call, Env, Api, and_then, ◌>>=◌, ◌>>◌, return, raise, from_queue, transaction, query, script,
}
use cislunar_ground_platform.GroundApi.Responses.{
  vendor_identity, Response, respond, lift, telemetry_values, reason_value, suppress_database,
  handle_outage, boundary_event, rejected_content, conflict_content, packet_content, replayed,
  settled_response, waiting, waiting_packet, is_pending_queue,
}

-- The keyword arguments of `record_delivery`.
abbrev pub delivery_of : Env → Request → Bytes → Delivery
delivery_of env request raw_body = record {
  raw_body = raw_body;
  peer_certificate_identity = vendor_identity;
  presented_request_id = request.request_id;
  canonical_request_id = canonical_uuid4_of request.request_id;
  content_type = request.content_type;
  received_at = some env.received_at;
  vendor_sent_at = none;
  receipt_id = none;
}

module _ (env : Env) where
  -- `_audit_safely`
  unfoldable pub audit_safely : TelemetryAuditEvent → Api (Unit {0})
  unfolding transaction
  audit_safely event w =
      suppress_database
        (transaction env Call.audits (λ db. ok (tt, (record_audit_event event db).1)) w)

  -- `_queue_one`
  unfoldable pub queue_one : Uuid → Bytes → Api Bool
  unfolding script transaction
  queue_one job_id packet_id = do
    message ← lift (from_queue (queue_message (uuid_text job_id) packet_id))
    added ← script env Call.enqueues (enqueue message)
    transaction env Call.marks (mark_job_queued job_id (uuid_text job_id) "ground-api" env.now)

  -- `reject_delivery` with the response to a rejection.
  unfoldable pub reject_as : Uuid → String → ℕ → Api Response
  unfolding transaction
  reject_as receipt_id reason status_code = do
    rejected ←
        transaction env Call.rejects (reject_delivery receipt_id reason none "ground-api" env.now)
    return (respond status_code (rejected_content rejected.receipt_id reason))

  -- An exact retry of a request whose packet waits for the queue.
  unfoldable pub requeue_job : Uuid → Bytes → Option TelemetryProcessingJob → Api Response
  unfolding queue_one
  requeue_job receipt_id packet_id none = raise runtime_error
  requeue_job receipt_id packet_id (some job) = do
    transitioned ← queue_one job.job_id job.packet_id
    return (
        respond (if transitioned then 202 else 200)
          (replayed (packet_content receipt_id (some packet_id) "QUEUED" false)))

  unfoldable pub requeue : Uuid → Bytes → Api Response
  unfolding query requeue_job
  requeue receipt_id packet_id = do
    job ← query env Call.reads_job (get_job_for_packet packet_id)
    requeue_job receipt_id packet_id job

  -- The job and the packet of an acceptance, which must both be there.
  unfoldable pub queue_accepted : Option Uuid → Option Bytes → Uuid → Api Response
  unfolding queue_one
  queue_accepted (some job_id) (some packet_id) receipt_id = do
    queued ← queue_one job_id packet_id
    return (respond 202 (packet_content receipt_id (some packet_id) "QUEUED" false))
  queue_accepted _ _ receipt_id = raise runtime_error

  -- A duplicate puts the job of the first delivery on the queue, where it is not yet.
  unfoldable pub queue_known : Option Uuid → Option Bytes → Api (Unit {0})
  unfolding queue_one
  queue_known (some job_id) (some packet_id) = do queued ← queue_one job_id packet_id; return tt
  queue_known _ _ = return tt

  unfoldable pub queue_duplicate : PacketAcceptanceResult → Api (Unit {0})
  unfolding queue_known
  queue_duplicate accepted =
      if is_pending_queue accepted.queue_status
      then queue_known accepted.job_id accepted.packet_id
      else return tt

  unfoldable pub answer_duplicate : PacketAcceptanceResult → Api Response
  unfolding queue_duplicate
  answer_duplicate accepted = do
    queue_duplicate accepted
    return (respond 200 (packet_content accepted.receipt_id accepted.packet_id "DUPLICATE" true))

  unfoldable pub after_acceptance : PacketAcceptanceResult → Api Response
  unfolding queue_accepted answer_duplicate
  after_acceptance accepted =
      if accepted.conflict
      then return (respond 409 (conflict_content accepted.receipt_id "SEQUENCE_CONFLICT"))
      else if accepted.duplicate
      then answer_duplicate accepted
      else queue_accepted accepted.job_id accepted.packet_id accepted.receipt_id

  unfoldable pub after_decoding :
      GroundSettings → Result CodecError TelemetryFrame → Uuid → Api Response
  unfolding transaction reject_as after_acceptance
  after_decoding settings (ok frame) receipt_id = do
    accepted ← transaction env Call.accepts (
        accept_packet_and_create_job receipt_id (telemetry_values frame) (λ pass. env.fresh_job)
          (pos_part settings.processing_maximum_attempts) "ground-api" env.now none)
    after_acceptance accepted
  after_decoding settings (err (Codec.rejected reason)) receipt_id =
      reject_as receipt_id (reason_value reason) 422
  after_decoding settings (err e) receipt_id = raise (codec e)

  -- The packet that waits, or the frame in the body.
  unfoldable pub process_packet : GroundSettings → Bytes → Uuid → Option Bytes → Api Response
  unfolding requeue after_decoding
  process_packet settings raw_body receipt_id (some packet_id) = requeue receipt_id packet_id
  process_packet settings raw_body receipt_id none =
      after_decoding settings (decode_telemetry raw_body (utc env.received_at)) receipt_id

  unfoldable pub process_named :
      GroundSettings → Option Uuid → Bytes → Uuid → Option TelemetryDeliveryReceipt → Api Response
  unfolding process_packet reject_as waiting_packet
  process_named settings none raw_body receipt_id existing =
      reject_as receipt_id "INVALID_REQUEST_ID" 400
  process_named settings (some request_id) raw_body receipt_id existing =
      process_packet settings raw_body receipt_id (waiting existing)

  -- A delivery that is not settled: the checks on the headers first.
  unfoldable pub process :
      GroundSettings → Request → Bytes → Uuid → Option TelemetryDeliveryReceipt → Api Response
  unfolding reject_as process_named
  process settings request raw_body receipt_id existing =
      if not (is_octet_stream request.content_type)
      then reject_as receipt_id "INVALID_CONTENT_TYPE" 400
      else process_named settings (canonical_uuid4_of request.request_id) raw_body receipt_id
          existing

  unfoldable pub unless_settled :
      Option Response
      → GroundSettings
      → Request
      → Bytes
      → Uuid
      → TelemetryDeliveryReceipt
      → Api Response
  unfolding process
  unless_settled (some response) settings request raw_body receipt_id existing = return response
  unless_settled none settings request raw_body receipt_id existing =
      process settings request raw_body receipt_id (some existing)

  unfoldable pub after_replay :
      GroundSettings → Request → Bytes → Uuid → Option TelemetryDeliveryReceipt → Api Response
  unfolding unless_settled settled_response
  after_replay settings request raw_body receipt_id none = raise runtime_error
  after_replay settings request raw_body receipt_id (some existing) =
      unless_settled (settled_response existing) settings request raw_body receipt_id existing

  unfoldable pub replay : GroundSettings → Request → Bytes → Uuid → Api Response
  unfolding query after_replay
  replay settings request raw_body receipt_id = do
    existing ← query env Call.reads_receipt (get_receipt receipt_id)
    after_replay settings request raw_body receipt_id existing

  -- `receive_payload_data` once the delivery is recorded.
  unfoldable pub after_recording :
      GroundSettings → Request → Bytes → DeliveryRecordResult → Api Response
  unfolding replay process
  after_recording settings request raw_body delivery =
      if delivery.request_conflict
      then return (
          respond 409
            (conflict_content delivery.receipt_id "REQUEST_ID_REUSED_WITH_DIFFERENT_BODY"))
      else if delivery.request_replay
      then replay settings request raw_body delivery.receipt_id
      else process settings request raw_body delivery.receipt_id none

  -- `receive_payload_data` with a body of bounded size.
  unfoldable pub deliver : GroundSettings → Request → Bytes → Api Response
  unfolding transaction after_recording
  deliver settings request raw_body w = handle_outage (
      and_then
        (transaction env Call.records
          (record_delivery (delivery_of env request raw_body) (λ pass. env.fresh_receipt) env.now
            none)
          w)
        (after_recording settings request raw_body))

  -- The answer to a request that stops at the boundary.
  unfoldable pub refuse : TelemetryAuditEvent → ℕ → String → Api Response
  unfolding audit_safely
  refuse event status_code reason = do
    audit_safely event
    return (
        respond status_code
          (("status", Value.text "REJECTED") ∷ ("reason", Value.text reason) ∷ []))

  unfoldable pub with_body : GroundSettings → Request → Result ApiError Bytes → Api Response
  unfolding deliver refuse
  with_body settings request (ok raw_body) = deliver settings request raw_body
  with_body settings request (err (http status_code)) =
      let reason = if status_code == 413 then "BODY_TOO_LARGE" else "INVALID_CONTENT_LENGTH" in
      refuse
        (boundary_event env "telemetry.delivery.security_rejected" vendor_identity reason request)
        status_code reason
  with_body settings request (err e) = raise e

  unfoldable pub after_authentication : GroundSettings → Request → Bool → Api Response
  unfolding with_body refuse
  after_authentication settings request known =
      if known
      then with_body settings request (bounded_body request settings.max_telemetry_body_bytes)
      else refuse
          (boundary_event env "vendor.authentication.failed" "unauthenticated"
            "INVALID_VENDOR_TOKEN" request)
          401 "INVALID_VENDOR_TOKEN"

  unfoldable pub receive_payload_data : GroundSettings → Request → Api Response
  unfolding after_authentication
  receive_payload_data settings request = do
    known ← lift (vendor_is_known request settings)
    after_authentication settings request known
