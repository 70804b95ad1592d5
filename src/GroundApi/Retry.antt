-- ===== src/GroundApi/Retry.antt =====
-- services/ground_api.py: an exact retry of a request whose packet still waits for the queue.
use cislunar_ground_platform.Base.{
  ℕ, true, false, none, some, Bytes, bytes_eq_refl, str_eq, ltb, length, ◌≤◌, Result, ok, err, ◌≡◌,
  refl, sym, ap, ◌∙◌, subst, arith,
}
use cislunar_ground_platform.Base.Int.{pos}
use cislunar_ground_platform.Std.Hashlib.{sha256_hexdigest}
use cislunar_ground_platform.Std.Uuid.{uuid_text}
use cislunar_ground_platform.Telemetry.Queue.Messages.{QueueMessage, queue_message}
use cislunar_ground_platform.Telemetry.Settings.{GroundSettings}
use cislunar_ground_platform.Telemetry.Storage.Records.{
  Uuid, Instant, DeliveryValidationStatus, DeliveryQueueStatus, ProcessingJobState,
  TelemetryDeliveryReceipt, TelemetryRequestIdentity, TelemetryProcessingJob,
}
use cislunar_ground_platform.Telemetry.Storage.Tables.{
  Db, find, identity_is, get_receipt, get_job, get_job_for_packet,
}
use cislunar_ground_platform.Telemetry.Storage.Tables.Rows.{row-key}
use cislunar_ground_platform.Telemetry.Storage.Deliveries.{
  Delivery, max_evidence_body_bytes, delivery_result, retry_once, repeat_delivery, record_known,
  record_for, record_attempt, record_delivery,
}
use cislunar_ground_platform.Telemetry.Storage.Jobs.{queued_job}
use cislunar_ground_platform.Telemetry.World.{World}
use cislunar_ground_platform.GroundApi.Requests.{
  ApiError, Request, canonical_uuid4_of, is_octet_stream, vendor_is_known, bounded_body,
}
use cislunar_ground_platform.GroundApi.Bodies.{Allows, sent, bounded_body_iff}
use cislunar_ground_platform.GroundApi.Calls.{Call, Env}
use cislunar_ground_platform.GroundApi.Queueing.{
  Quiet, IsUnmarked, Marked, transaction-answered, query-answered, queue_one-Marked,
  enqueue_job-queued,
}
use cislunar_ground_platform.GroundApi.Responses.{
  Response, respond, replayed, packet_content, handle_outage, settled_by, settled_response,
  waiting_packet,
}
use cislunar_ground_platform.GroundApi.Delivery.{
  delivery_of, requeue_job, requeue, process_packet, process_named, process, unless_settled,
  after_replay, replay, after_recording, deliver, with_body, after_authentication,
  receive_payload_data,
}

-- The packet of an earlier delivery under a request identifier, with these bytes, is accepted and
-- waits for the queue.
pub record Waits (q : Uuid) (body : Bytes) (db : Db) : Type 0 where
  pub identity : TelemetryRequestIdentity
  pub first : TelemetryDeliveryReceipt
  pub packet_id : Bytes
  pub job : TelemetryProcessingJob
  pub known : find (identity_is q) db.identities ≡ some identity
  pub found : get_receipt identity.first_receipt_id db ≡ some first
  pub digest : identity.body_sha256 ≡ sha256_hexdigest body
  pub same : first.raw_body ≡ body
  pub accepted : first.validation_status ≡ DeliveryValidationStatus.accepted
  pub pending : first.queue_status ≡ DeliveryQueueStatus.pending_queue
  pub packet : first.logical_packet_id ≡ some packet_id
  pub has_job : get_job_for_packet packet_id db ≡ some job
  pub own_job : get_job job.job_id db ≡ some job
  pub waits : job.state ≡ ProcessingJobState.pending_queue

-- A request that passes the boundary: the vendor's token, a body within the limit, the media type
-- and a canonical identifier.
pub record IsProper (settings : GroundSettings) (request : Request) (q : Uuid) : Type 0 where
  pub most : ℕ
  pub limit : settings.max_telemetry_body_bytes ≡ pos most
  pub small : most ≤ 1024
  pub vendor : vendor_is_known request settings ≡ ok true
  pub allowed : Allows most request.content_length
  pub fits : length (sent request.chunks) ≤ most
  pub media : is_octet_stream request.content_type ≡ true
  pub named : canonical_uuid4_of request.request_id ≡ some q

pub proper_body :
    (settings : GroundSettings) (request : Request) (q : Uuid)
    → IsProper settings request q
    → bounded_body request settings.max_telemetry_body_bytes ≡ ok (sent request.chunks)
proper_body settings request q p =
    subst (λ z. bounded_body request z ≡ ok (sent request.chunks)) (sym p.limit)
      ((bounded_body_iff request p.most (sent request.chunks)).1 (p.allowed, refl, p.fits))

repeat_delivery-same :
    (d : Delivery) (fresh : Uuid) (now : Instant) (identity : TelemetryRequestIdentity)
    (first : TelemetryDeliveryReceipt) (db : Db)
    → get_receipt identity.first_receipt_id db ≡ some first
    → identity.body_sha256 ≡ sha256_hexdigest d.raw_body
    → first.raw_body ≡ d.raw_body
    → repeat_delivery d fresh now identity db ≡ ok (delivery_result first true false, db)
unfolding repeat_delivery
repeat_delivery-same d fresh now identity first db found digest same =
    rw found (
      rw (digest, bytes_eq_refl (sha256_hexdigest d.raw_body), same, bytes_eq_refl d.raw_body) refl)

-- A retry records nothing and returns the first receipt.
record_delivery-Waits :
    (d : Delivery) (q fresh : Uuid) (now : Instant) (db : Db) (s : Waits q d.raw_body db)
    → d.canonical_request_id ≡ some q
    → length d.raw_body ≤ 1024
    → str_eq d.peer_certificate_identity "" ≡ false
    → record_delivery d (λ pass. fresh) now none db ≡ ok (delivery_result s.first true false, db)
unfolding record_delivery
record_delivery-Waits d q fresh now db s named small peer =
    let fits : ltb max_evidence_body_bytes (length d.raw_body) ≡ false = ground arith in
    let attempt : record_attempt d fresh now db ≡ ok (delivery_result s.first true false, db) =
      (unfold record_attempt record_for record_known in
        ap (λ o. record_for o d fresh now db) named
        ∙ ap (λ o. record_known d fresh now o db) s.known
        ∙ repeat_delivery-same d fresh now s.identity s.first db s.found s.digest s.same) in
    rw (fits, peer) (rw (attempt, retry_once) refl)

-- The answer to a retry, with the entry in the pending or the processing list, and the job queued.
abbrev pub Queues :
    Env → QueueMessage → TelemetryProcessingJob → Result ApiError Response × World → Type 0
Queues env m job r =
    (response : Response) × (r.0 ≡ ok response)
    × (response.status_code ≡ 202)
    × Marked m r.1.redis
    × (get_job job.job_id r.1.db ≡ some (queued_job job (uuid_text job.job_id) env.now))

handle-Queues :
    (env : Env) (m : QueueMessage) (job : TelemetryProcessingJob)
    (r : Result ApiError Response × World)
    → Queues env m job r
    → Queues env m job (handle_outage r)
handle-Queues env m job (ok response, w) h = h
handle-Queues env m job (err e, w) h = cc (h.1)

module _ (env : Env) (quiet : Quiet env) where
  requeue-Queues :
      (i : Uuid) (packet_id : Bytes) (m : QueueMessage) (job : TelemetryProcessingJob) (w : World)
      → queue_message (uuid_text job.job_id) job.packet_id ≡ ok m
      → IsUnmarked m w.redis
      → get_job_for_packet packet_id w.db ≡ some job
      → get_job job.job_id w.db ≡ some job
      → job.state ≡ ProcessingJobState.pending_queue
      → Queues env m job (requeue env i packet_id w)
  unfolding requeue requeue_job
  requeue-Queues i packet_id m job w named unmarked has own waits =
      let (after, queued, marked) =
        queue_one-Marked env quiet job.job_id job.packet_id m job w named unmarked own waits in
      rw
        (query-answered env quiet Call.reads_job (get_job_for_packet packet_id) w, has, requeue_job)
        (rw queued (
          respond 202 (replayed (packet_content i (some packet_id) "QUEUED" false)),
          refl,
          refl,
          marked,
          enqueue_job-queued job.job_id (uuid_text job.job_id) "ground-api" env.now job w.db own,
        ))

  after_replay-Queues :
      (settings : GroundSettings) (request : Request) (q i : Uuid) (body : Bytes) (m : QueueMessage)
      (w : World) (s : Waits q body w.db)
      → is_octet_stream request.content_type ≡ true
      → canonical_uuid4_of request.request_id ≡ some q
      → queue_message (uuid_text s.job.job_id) s.job.packet_id ≡ ok m
      → IsUnmarked m w.redis
      → Queues env m s.job (after_replay env settings request body i (some s.first) w)
  unfolding after_replay settled_response settled_by
  after_replay-Queues settings request q i body m w s media named queue unmarked =
      rw (s.accepted, s.pending, settled_by, unless_settled)
        (unfold process process_named process_packet waiting_packet in
          rw (media, named, process_named)
            (rw (s.packet, process_packet)
              (requeue-Queues i s.packet_id m s.job w queue unmarked s.has_job s.own_job s.waits)))

-- Liveness after an outage: if an earlier delivery of the same bytes under the request identifier
-- was accepted and its packet still waits for the queue, because Redis failed or its answer was
-- lost, and Redis has no marker of the job or its marker with its entry, then a proper retry whose
-- calls are answered, with no other service in between, is answered with 202; the job is queued
-- then, its entry stands in the pending or the processing list, and its marker is set.
pub receive_payload_data-Queues :
    (env : Env) (settings : GroundSettings) (request : Request) (q : Uuid) (m : QueueMessage)
    (w : World) (s : Waits q (sent request.chunks) w.db)
    → Quiet env
    → IsProper settings request q
    → queue_message (uuid_text s.job.job_id) s.job.packet_id ≡ ok m
    → IsUnmarked m w.redis
    → Queues env m s.job (receive_payload_data env settings request w)
unfolding receive_payload_data after_authentication with_body deliver after_recording replay
receive_payload_data-Queues env settings request q m w s quiet p queue unmarked =
    let body = sent request.chunks in
    let d = delivery_of env request body in
    let recorded =
      transaction-answered env quiet Call.records
        (record_delivery d (λ pass. env.fresh_receipt) env.now none) w
        (delivery_result s.first true false) w.db
        (record_delivery-Waits d q env.fresh_receipt env.now w.db s p.named
          (omega (arith, p.fits, p.small)) refl) in
    let there : get_receipt s.first.receipt_id w.db ≡ some s.first =
      subst (λ i. get_receipt i w.db ≡ some s.first)
        (sym
          (row-key (λ r. r.receipt_id) s.identity.first_receipt_id s.first w.db.receipts s.found))
        s.found in
    rw (p.vendor, proper_body settings request q p, with_body)
      (rw recorded (
        rw (query-answered env quiet Call.reads_receipt (get_receipt s.first.receipt_id) w, there)
          (handle-Queues env m s.job _ (
            unfold after_replay in
            after_replay-Queues env quiet settings request q s.first.receipt_id body m w s p.media
              p.named queue unmarked))))
