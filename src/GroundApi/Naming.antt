-- ===== src/GroundApi/Naming.antt =====
-- services/ground_api.py: which receipt a response names.
use cislunar_ground_platform.Base.Int.{pos_part}
use cislunar_ground_platform.Std.Datetime.{utc}
use cislunar_ground_platform.Telemetry.Storage.Tables.{get_job_for_packet}
use cislunar_ground_platform.Telemetry.Storage.Acceptance.{accept_packet_and_create_job}
use cislunar_ground_platform.GroundApi.Passes.{accept_packet-pass}
use cislunar_ground_platform.GroundApi.Delivery.{
  queue_one, reject_as, requeue_job, requeue, queue_accepted, queue_duplicate, answer_duplicate,
  after_acceptance, after_decoding, process_packet, process_named, process,
}
use cislunar_ground_platform.Base.{
  not, ℕ, Bool, true, false, Option, none, some, [], ◌∷◌, Bytes, String, str_eq, Result, ok, err,
  OnOk, OnOk-apply, ◌≡◌, refl, subst, if◌then◌else◌,
}
use cislunar_ground_platform.Telemetry.World.{World}
use cislunar_ground_platform.Telemetry.Codec as Codec
use cislunar_ground_platform.Telemetry.Codec.{TelemetryFrame, CodecError, decode_telemetry}
use cislunar_ground_platform.Telemetry.Settings.{GroundSettings}
use cislunar_ground_platform.Telemetry.Storage.Records.{
  Uuid, DeliveryValidationStatus, DeliveryQueueStatus, Value, Json, StorageError,
  PacketAcceptanceResult, TelemetryDeliveryReceipt, TelemetryProcessingJob,
}
use cislunar_ground_platform.Telemetry.Storage.Tables.{Db}
use cislunar_ground_platform.Telemetry.Storage.Receipts.{reject_delivery-Own, accept_packet-Own}
use cislunar_ground_platform.GroundApi.Requests.{
  ApiError, Request, canonical_uuid4_of, is_octet_stream,
}
use cislunar_ground_platform.GroundApi.Calls.{
  Call, Reply, Env, Api, and_then, committed, transaction, query,
}
use cislunar_ground_platform.GroundApi.Responses.{
  Response, settled_by, waiting, telemetry_values, reason_value,
}

-- The receipt that a response names.
abbrev pub named_receipt : Json → Option Uuid
named_receipt [] = none
named_receipt ((key, Value.uuid i) ∷ rest) =
    let later = named_receipt rest in if str_eq key "receipt_id" then some i else later
named_receipt ((key, _) ∷ rest) = named_receipt rest

-- A response names no receipt but i.
abbrev pub Names : Uuid → Result ApiError Response × World → Type 0
Names i (ok response, w) = (j : Uuid) → named_receipt response.content ≡ some j → j ≡ i
Names i (err e, w) = Unit {0}

-- What a step returns, with the stores as it leaves them.
abbrev pub Returns : {A : Type 0} → (A → World → Type 0) → Result ApiError A × World → Type 0
Returns P (ok a, w) = P a w
Returns P (err e, w) = Unit {0}

pub and_then-Names :
    {A : Type 0} (i : Uuid) (P : A → World → Type 0) (r : Result ApiError A × World)
    (next : A → Api Response)
    → Returns P r
    → ((a : A) (w : World) → P a w → Names i (next a w))
    → Names i (and_then r next)
and_then-Names i P (ok a, w) next h k = k a w h
and_then-Names i P (err e, w) next h k = tt

any-Names :
    {A : Type 0} (i : Uuid) (r : Result ApiError A × World) (next : A → Api Response)
    → ((a : A) (w : World) → Names i (next a w))
    → Names i (and_then r next)
any-Names i (ok a, w) next k = k a w
any-Names i (err e, w) next k = tt

pub committed-Returns :
    {A : Type 0} (P : A → World → Type 0) (reply : Reply) (m : Result StorageError (A × Db))
    (w : World)
    → OnOk (λ q. P q.0 (record w { db = q.1 })) m
    → Returns P (committed reply m w)
unfolding committed
committed-Returns P Reply.answered (ok (a, db)) w h = h
committed-Returns P Reply.answered (err e) w h = tt
committed-Returns P Reply.refused m w h = tt
committed-Returns P Reply.lost (ok (a, db)) w h = tt
committed-Returns P Reply.lost (err e) w h = tt

pub every_ok :
    {A : Type 0} (P : A → Type 0) (m : Result StorageError A)
    → ((a : A) → m ≡ ok a → P a)
    → OnOk P m
every_ok P (ok a) h = h a refl
every_ok P (err e) h = tt

pub if-Names :
    (i : Uuid) (b : Bool) (m n : Api Response) (w : World)
    → Names i (m w)
    → Names i (n w)
    → Names i ((if b then m else n) w)
if-Names i true m n w hm hn = hm
if-Names i false m n w hm hn = hn

-- The response is about the receipt that the function was given.
pub names_own : (i k : Uuid) → k ≡ i → (j : Uuid) → ◌≡◌ {A = Option Uuid} (some k) (some j) → j ≡ i
names_own i k e j h = cc

module _ (env : Env) where
  reject_as-Names :
      (i : Uuid) (reason : String) (status_code : ℕ) (w : World)
      → Names i (reject_as env i reason status_code w)
  unfolding reject_as transaction
  reject_as-Names i reason status_code w =
      let w' = env.others Call.rejects w in
      and_then-Names i (λ a u. a.receipt_id ≡ i) _ _
        (committed-Returns (λ a u. a.receipt_id ≡ i) (env.reply Call.rejects) _ w'
          (reject_delivery-Own i reason none "ground-api" env.now w'.db))
        λ a u e. names_own i a.receipt_id e

  requeue_job-Names :
      (i : Uuid) (packet_id : Bytes) (job : Option TelemetryProcessingJob) (w : World)
      → Names i (requeue_job env i packet_id job w)
  unfolding requeue_job
  requeue_job-Names i packet_id none w = tt
  requeue_job-Names i packet_id (some job) w =
      any-Names i (queue_one env job.job_id job.packet_id w) _ λ a u. names_own i i refl

  requeue-Names : (i : Uuid) (packet_id : Bytes) (w : World) → Names i (requeue env i packet_id w)
  unfolding requeue
  requeue-Names i packet_id w =
      any-Names i (query env Call.reads_job (get_job_for_packet packet_id) w) _
        λ job u. requeue_job-Names i packet_id job u

  queue_accepted-Names :
      (i : Uuid) (job : Option Uuid) (packet : Option Bytes) (w : World)
      → Names i (queue_accepted env job packet i w)
  unfolding queue_accepted
  queue_accepted-Names i (some job_id) (some packet_id) w =
      any-Names i (queue_one env job_id packet_id w) _ λ a u. names_own i i refl
  queue_accepted-Names i (some job_id) none w = tt
  queue_accepted-Names i none packet w = tt

  after_acceptance-Names :
      (i : Uuid) (accepted : PacketAcceptanceResult) (w : World)
      → accepted.receipt_id ≡ i
      → Names i (after_acceptance env accepted w)
  unfolding after_acceptance answer_duplicate
  after_acceptance-Names i accepted w e =
      if-Names i accepted.conflict _ _ w (names_own i accepted.receipt_id e) (
        if-Names i accepted.duplicate _ _ w
          (any-Names i (queue_duplicate env accepted w) _ λ a u. names_own i accepted.receipt_id e)
          (subst
            (λ k.
              Names k (queue_accepted env accepted.job_id accepted.packet_id accepted.receipt_id w))
            e (queue_accepted-Names accepted.receipt_id accepted.job_id accepted.packet_id w)))

  after_decoding-Names :
      (settings : GroundSettings) (frame : Result CodecError TelemetryFrame) (i : Uuid) (w : World)
      → Names i (after_decoding env settings frame i w)
  unfolding after_decoding transaction
  after_decoding-Names settings (ok frame) i w =
      let w' = env.others Call.accepts w in
      let most = pos_part settings.processing_maximum_attempts in
      and_then-Names i (λ a u. a.receipt_id ≡ i) _ _
        (committed-Returns (λ a u. a.receipt_id ≡ i) (env.reply Call.accepts) _ w'
          (every_ok (λ q. q.0.receipt_id ≡ i)
            (accept_packet_and_create_job i (telemetry_values frame) (λ pass. env.fresh_job) most
              "ground-api" env.now none w'.db)
            λ q e.
              OnOk-apply (λ p. p.0.receipt_id ≡ i) _
                (accept_packet-Own i (telemetry_values frame) env.fresh_job most "ground-api"
                  env.now w'.db)
                (accept_packet-pass i (telemetry_values frame) env.fresh_job most "ground-api"
                  env.now w'.db q.1 q.0 e)))
        λ a u e. after_acceptance-Names i a u e
  after_decoding-Names settings (err (Codec.rejected reason)) i w =
      reject_as-Names i (reason_value reason) 422 w
  after_decoding-Names settings (err _) i w = tt

  process_packet-Names :
      (settings : GroundSettings) (raw_body : Bytes) (i : Uuid) (packet : Option Bytes) (w : World)
      → Names i (process_packet env settings raw_body i packet w)
  unfolding process_packet
  process_packet-Names settings raw_body i (some packet_id) w = requeue-Names i packet_id w
  process_packet-Names settings raw_body i none w =
      after_decoding-Names settings (decode_telemetry raw_body (utc env.received_at)) i w

  process_named-Names :
      (settings : GroundSettings) (request : Option Uuid) (raw_body : Bytes) (i : Uuid)
      (existing : Option TelemetryDeliveryReceipt) (w : World)
      → Names i (process_named env settings request raw_body i existing w)
  unfolding process_named
  process_named-Names settings none raw_body i existing w =
      reject_as-Names i "INVALID_REQUEST_ID" 400 w
  process_named-Names settings (some r) raw_body i existing w =
      process_packet-Names settings raw_body i (waiting existing) w

  pub process-Names :
      (settings : GroundSettings) (request : Request) (raw_body : Bytes) (i : Uuid)
      (existing : Option TelemetryDeliveryReceipt) (w : World)
      → Names i (process env settings request raw_body i existing w)
  unfolding process
  process-Names settings request raw_body i existing w =
      if-Names i (not (is_octet_stream request.content_type)) _ _ w
        (reject_as-Names i "INVALID_CONTENT_TYPE" 400 w)
        (process_named-Names settings (canonical_uuid4_of request.request_id) raw_body i existing w)

abbrev pub SettledNames : Uuid → Option Response → Type 0
SettledNames i none = Unit {0}
SettledNames i (some response) = (j : Uuid) → named_receipt response.content ≡ some j → j ≡ i

pub settled_by-Names :
    (i : Uuid) (s : DeliveryValidationStatus) (q : DeliveryQueueStatus)
    (r : TelemetryDeliveryReceipt)
    → r.receipt_id ≡ i
    → SettledNames i (settled_by s q r)
unfolding settled_by
settled_by-Names i DeliveryValidationStatus.rejected q r e = names_own i r.receipt_id e
settled_by-Names i DeliveryValidationStatus.accepted DeliveryQueueStatus.queued r e =
    names_own i r.receipt_id e
settled_by-Names i DeliveryValidationStatus.duplicate DeliveryQueueStatus.queued r e =
    names_own i r.receipt_id e
settled_by-Names i DeliveryValidationStatus.accepted DeliveryQueueStatus.not_applicable r e = tt
settled_by-Names i DeliveryValidationStatus.accepted DeliveryQueueStatus.pending_queue r e = tt
settled_by-Names i DeliveryValidationStatus.duplicate DeliveryQueueStatus.not_applicable r e = tt
settled_by-Names i DeliveryValidationStatus.duplicate DeliveryQueueStatus.pending_queue r e = tt
settled_by-Names i DeliveryValidationStatus.pending q r e = tt
settled_by-Names i DeliveryValidationStatus.conflict q r e = tt
