-- ===== src/GroundApi/Refines/Handlers.antt =====
-- services/ground_api.py: `receive_payload_data` refines the repository's step relation.
use cislunar_ground_platform.GroundApi.Delivery.{
  after_authentication, queue_duplicate, delivery_of, replay, unless_settled, answer_duplicate,
  receive_payload_data, with_body, refuse, deliver, after_recording, after_replay, process,
  process_named, process_packet, after_decoding, after_acceptance, queue_known, queue_accepted,
  requeue_job, requeue, reject_as, queue_one, audit_safely,
}
use cislunar_ground_platform.Base.{
  not, ℕ, Bool, true, false, Option, none, some, Result, ok, err, ◌≡◌, sym, ap, Bytes, String,
  ok-injective, if◌then◌else◌,
}
use cislunar_ground_platform.Telemetry.Queue.Messages.{queue_message}
use cislunar_ground_platform.Telemetry.Queue.Lists.{enqueue}
use cislunar_ground_platform.Telemetry.Storage.Records.{
  TelemetryProcessingJob, Uuid, StorageError, DeliveryRecordResult, PacketAcceptanceResult,
  TelemetryDeliveryReceipt, TelemetryAuditEvent,
}
use cislunar_ground_platform.Telemetry.Storage.Tables.{
  get_receipt, add_audit, get_job_for_packet, Db,
}
use cislunar_ground_platform.Telemetry.Storage.Queries.{record_audit_event}
use cislunar_ground_platform.Std.Uuid.{uuid_text}
use cislunar_ground_platform.Base.Int.{pos_part}
use cislunar_ground_platform.Telemetry.Storage.Jobs.{mark_job_queued}
use cislunar_ground_platform.Telemetry.Storage.History.{Step, Run, here, next}
use cislunar_ground_platform.Telemetry.World.{World}
use cislunar_ground_platform.Telemetry.Codec as Codec
use cislunar_ground_platform.Telemetry.Codec.{TelemetryFrame, CodecError, decode_telemetry}
use cislunar_ground_platform.Std.Datetime.{utc}
use cislunar_ground_platform.Telemetry.Settings.{GroundSettings}
use cislunar_ground_platform.Telemetry.Storage.Deliveries.{record_delivery, reject_delivery}
use cislunar_ground_platform.Telemetry.Storage.Acceptance.{accept_packet_and_create_job}
use cislunar_ground_platform.GroundApi.Responses.{
  reason_value, telemetry_values, lift, Response, handle_outage, suppress_database,
  is_pending_queue, settled_response, waiting,
}
use cislunar_ground_platform.GroundApi.Requests.{
  http, ApiError, redis_error, database_error, Request, canonical_uuid4_of, is_octet_stream,
  vendor_is_known, bounded_body,
}
use cislunar_ground_platform.GroundApi.Calls.{
  from_queue, Call, Env, Api, transaction, query, script,
}
use cislunar_ground_platform.GroundApi.Refines.{
  OthersRun, Reaches, and_then-Reaches, transaction-Reaches, query-Reaches, script-Reaches,
}
use cislunar_ground_platform.GroundApi.Passes.{record_delivery-pass, accept_packet-pass}

step : {db db' : Db} → Step db db' → Run db db'
step s = next here s

suppress-Reaches :
    (w : World) (r : Result ApiError (Unit {0}) × World)
    → Reaches w r
    → Reaches w (suppress_database r)
suppress-Reaches w (ok u, v) h = h
suppress-Reaches w (err database_error, v) h = h
suppress-Reaches w (err _, v) h = h

handle-Reaches :
    (w : World) (r : Result ApiError Response × World) → Reaches w r → Reaches w (handle_outage r)
handle-Reaches w (ok u, v) h = h
handle-Reaches w (err redis_error, v) h = h
handle-Reaches w (err database_error, v) h = h
handle-Reaches w (err _, v) h = h

audited :
    (event : TelemetryAuditEvent) (db db' : Db) (u : Unit {0})
    → ◌≡◌ {A = Result StorageError (Unit {0} × Db)}
        (ok (tt, (record_audit_event event db).1))
        (ok (u, db'))
    → db' ≡ add_audit event db
unfolding record_audit_event
audited event db db' u e = sym (ap (λ q. q.1) (ok-injective e))

if-Reaches :
    {A : Type 0} (b : Bool) (m n : Api A) (w : World)
    → Reaches w (m w)
    → Reaches w (n w)
    → Reaches w ((if b then m else n) w)
if-Reaches true m n w hm hn = hm
if-Reaches false m n w hm hn = hn

module _ (env : Env) (others : OthersRun env) where
  audit-Reaches : (event : TelemetryAuditEvent) (w : World) → Reaches w (audit_safely env event w)
  unfolding audit_safely
  audit-Reaches event w = suppress-Reaches w _ (
      transaction-Reaches env others Call.audits (λ db. ok (tt, (record_audit_event event db).1))
        (λ db db' a e. step (Step.audits event (audited event db db' a e))) w)

  queue_one-Reaches :
      (job_id : Uuid) (packet_id : Bytes) (w : World) → Reaches w (queue_one env job_id packet_id w)
  unfolding queue_one
  queue_one-Reaches job_id packet_id w =
      and_then-Reaches w (lift (from_queue (queue_message (uuid_text job_id) packet_id)) w) _ here
        λ message u.
          and_then-Reaches u (script env Call.enqueues (enqueue message) u) _
            (script-Reaches env others Call.enqueues (enqueue message) u)
            λ added v.
              transaction-Reaches env others Call.marks
                (mark_job_queued job_id (uuid_text job_id) "ground-api" env.now)
                (λ db db' a e. step (Step.marks job_id (uuid_text job_id) "ground-api" env.now a e))
                v

  reject_as-Reaches :
      (receipt_id : Uuid) (reason : String) (status_code : ℕ) (w : World)
      → Reaches w (reject_as env receipt_id reason status_code w)
  unfolding reject_as
  reject_as-Reaches receipt_id reason status_code w =
      and_then-Reaches w
        (transaction env Call.rejects (reject_delivery receipt_id reason none "ground-api" env.now)
          w)
        _
        (transaction-Reaches env others Call.rejects
          (reject_delivery receipt_id reason none "ground-api" env.now)
          (λ db db' a e. step (Step.rejects receipt_id reason none "ground-api" env.now a e)) w)
        λ rejected u. here

  requeue_job-Reaches :
      (receipt_id : Uuid) (packet_id : Bytes) (found : Option TelemetryProcessingJob) (w : World)
      → Reaches w (requeue_job env receipt_id packet_id found w)
  unfolding requeue_job
  requeue_job-Reaches receipt_id packet_id none w = here
  requeue_job-Reaches receipt_id packet_id (some job) w =
      and_then-Reaches w (queue_one env job.job_id job.packet_id w) _
        (queue_one-Reaches job.job_id job.packet_id w) λ transitioned u. here

  requeue-Reaches :
      (receipt_id : Uuid) (packet_id : Bytes) (w : World)
      → Reaches w (requeue env receipt_id packet_id w)
  unfolding requeue
  requeue-Reaches receipt_id packet_id w =
      and_then-Reaches w (query env Call.reads_job (get_job_for_packet packet_id) w) _
        (query-Reaches env others Call.reads_job (get_job_for_packet packet_id) w)
        λ found u. requeue_job-Reaches receipt_id packet_id found u

  queue_accepted-Reaches :
      (job : Option Uuid) (packet : Option Bytes) (receipt_id : Uuid) (w : World)
      → Reaches w (queue_accepted env job packet receipt_id w)
  unfolding queue_accepted
  queue_accepted-Reaches (some job_id) (some packet_id) receipt_id w =
      and_then-Reaches w (queue_one env job_id packet_id w) _ (queue_one-Reaches job_id packet_id w)
        λ queued u. here
  queue_accepted-Reaches (some job_id) none receipt_id w = here
  queue_accepted-Reaches none packet receipt_id w = here

  queue_known-Reaches :
      (job : Option Uuid) (packet : Option Bytes) (w : World)
      → Reaches w (queue_known env job packet w)
  unfolding queue_known
  queue_known-Reaches (some job_id) (some packet_id) w =
      and_then-Reaches w (queue_one env job_id packet_id w) _ (queue_one-Reaches job_id packet_id w)
        λ queued u. here
  queue_known-Reaches (some job_id) none w = here
  queue_known-Reaches none packet w = here

  after_acceptance-Reaches :
      (accepted : PacketAcceptanceResult) (w : World) → Reaches w (after_acceptance env accepted w)
  unfolding after_acceptance answer_duplicate queue_duplicate
  after_acceptance-Reaches accepted w = if-Reaches accepted.conflict _ _ w here (
      if-Reaches accepted.duplicate _ _ w
        (and_then-Reaches w (queue_duplicate env accepted w) _
          (if-Reaches (is_pending_queue accepted.queue_status) _ _ w
            (queue_known-Reaches accepted.job_id accepted.packet_id w) here)
          λ u v. here)
        (queue_accepted-Reaches accepted.job_id accepted.packet_id accepted.receipt_id w))

  after_decoding-Reaches :
      (settings : GroundSettings) (frame : Result CodecError TelemetryFrame) (receipt_id : Uuid)
      (w : World)
      → Reaches w (after_decoding env settings frame receipt_id w)
  unfolding after_decoding
  after_decoding-Reaches settings (ok frame) receipt_id w =
      let most = pos_part settings.processing_maximum_attempts in
      let accept =
        accept_packet_and_create_job receipt_id (telemetry_values frame) (λ pass. env.fresh_job)
          most "ground-api" env.now none in
      and_then-Reaches w (transaction env Call.accepts accept w) _
        (transaction-Reaches env others Call.accepts accept
          (λ db db' a e. step (
            Step.accepts receipt_id (telemetry_values frame) env.fresh_job most "ground-api" env.now
              a
              (accept_packet-pass receipt_id (telemetry_values frame) env.fresh_job most
                "ground-api" env.now db db' a e)))
          w)
        λ accepted u. after_acceptance-Reaches accepted u
  after_decoding-Reaches settings (err (Codec.rejected reason)) receipt_id w =
      reject_as-Reaches receipt_id (reason_value reason) 422 w
  after_decoding-Reaches settings (err _) receipt_id w = here

  process_packet-Reaches :
      (settings : GroundSettings) (raw_body : Bytes) (receipt_id : Uuid) (packet : Option Bytes)
      (w : World)
      → Reaches w (process_packet env settings raw_body receipt_id packet w)
  unfolding process_packet
  process_packet-Reaches settings raw_body receipt_id (some packet_id) w =
      requeue-Reaches receipt_id packet_id w
  process_packet-Reaches settings raw_body receipt_id none w =
      after_decoding-Reaches settings (decode_telemetry raw_body (utc env.received_at)) receipt_id w

  process_named-Reaches :
      (settings : GroundSettings) (request : Option Uuid) (raw_body : Bytes) (receipt_id : Uuid)
      (existing : Option TelemetryDeliveryReceipt) (w : World)
      → Reaches w (process_named env settings request raw_body receipt_id existing w)
  unfolding process_named
  process_named-Reaches settings none raw_body receipt_id existing w =
      reject_as-Reaches receipt_id "INVALID_REQUEST_ID" 400 w
  process_named-Reaches settings (some r) raw_body receipt_id existing w =
      process_packet-Reaches settings raw_body receipt_id (waiting existing) w

  process-Reaches :
      (settings : GroundSettings) (request : Request) (raw_body : Bytes) (receipt_id : Uuid)
      (existing : Option TelemetryDeliveryReceipt) (w : World)
      → Reaches w (process env settings request raw_body receipt_id existing w)
  unfolding process
  process-Reaches settings request raw_body receipt_id existing w =
      if-Reaches (not (is_octet_stream request.content_type)) _ _ w
        (reject_as-Reaches receipt_id "INVALID_CONTENT_TYPE" 400 w)
        (process_named-Reaches settings (canonical_uuid4_of request.request_id) raw_body receipt_id
          existing w)

  after_replay-Reaches :
      (settings : GroundSettings) (request : Request) (raw_body : Bytes) (receipt_id : Uuid)
      (existing : Option TelemetryDeliveryReceipt) (w : World)
      → Reaches w (after_replay env settings request raw_body receipt_id existing w)
  unfolding after_replay
  after_replay-Reaches settings request raw_body receipt_id none w = here
  after_replay-Reaches settings request raw_body receipt_id (some r) w =
      settled (settled_response r)
    where
      settled :
          (o : Option Response)
          → Reaches w (unless_settled env o settings request raw_body receipt_id r w)
      settled (some response) = unfold unless_settled in here
      settled none =
          unfold unless_settled in process-Reaches settings request raw_body receipt_id (some r) w

  pub after_recording-Reaches :
      (settings : GroundSettings) (request : Request) (raw_body : Bytes)
      (delivery : DeliveryRecordResult) (w : World)
      → Reaches w (after_recording env settings request raw_body delivery w)
  unfolding after_recording replay
  after_recording-Reaches settings request raw_body delivery w =
      if-Reaches delivery.request_conflict _ _ w here (
        if-Reaches delivery.request_replay _ _ w
          (and_then-Reaches w (query env Call.reads_receipt (get_receipt delivery.receipt_id) w) _
            (query-Reaches env others Call.reads_receipt (get_receipt delivery.receipt_id) w)
            λ existing u.
              after_replay-Reaches settings request raw_body delivery.receipt_id existing u)
          (process-Reaches settings request raw_body delivery.receipt_id none w))

  deliver-Reaches :
      (settings : GroundSettings) (request : Request) (raw_body : Bytes) (w : World)
      → Reaches w (deliver env settings request raw_body w)
  unfolding deliver
  deliver-Reaches settings request raw_body w =
      let d = delivery_of env request raw_body in
      let body = record_delivery d (λ pass. env.fresh_receipt) env.now none in
      handle-Reaches w _ (
        and_then-Reaches w (transaction env Call.records body w) _
          (transaction-Reaches env others Call.records body
            (λ db db' a e. step (
              Step.records d env.fresh_receipt env.now a
                (record_delivery-pass d env.fresh_receipt env.now db db' a e)))
            w)
          λ delivery u. after_recording-Reaches settings request raw_body delivery u)

  refuse-Reaches :
      (event : TelemetryAuditEvent) (status_code : ℕ) (reason : String) (w : World)
      → Reaches w (refuse env event status_code reason w)
  unfolding refuse
  refuse-Reaches event status_code reason w =
      and_then-Reaches w (audit_safely env event w) _ (audit-Reaches event w) λ done u. here

  with_body-Reaches :
      (settings : GroundSettings) (request : Request) (body : Result ApiError Bytes) (w : World)
      → Reaches w (with_body env settings request body w)
  unfolding with_body
  with_body-Reaches settings request (ok raw_body) w = deliver-Reaches settings request raw_body w
  with_body-Reaches settings request (err (http status_code)) w = refuse-Reaches _ status_code _ w
  with_body-Reaches settings request (err _) w = here

-- Whatever the request, whichever calls fail or lose their answer, and whatever other services
-- commit between the calls, a request takes the database through a run of the repository's
-- transactions: it writes in no other way.
pub receive_payload_data-Run :
    (env : Env) (settings : GroundSettings) (request : Request) (w : World)
    → OthersRun env
    → Run w.db (receive_payload_data env settings request w).1.db
unfolding receive_payload_data after_authentication
receive_payload_data-Run env settings request w others =
    and_then-Reaches w (lift (vendor_is_known request settings) w) _ here λ known u.
      if-Reaches known _ _ u
        (with_body-Reaches env others settings request
          (bounded_body request settings.max_telemetry_body_bytes) u)
        (refuse-Reaches env others _ 401 "INVALID_VENDOR_TOKEN" u)
