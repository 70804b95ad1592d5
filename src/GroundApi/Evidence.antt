-- ===== src/GroundApi/Evidence.antt =====
-- services/ground_api.py: a response that names a receipt is backed by the receipt's bytes.
use cislunar_ground_platform.GroundApi.Bodies.{sent, bounded_body_iff}
use cislunar_ground_platform.GroundApi.Refines.{OthersRun}
use cislunar_ground_platform.GroundApi.Refines.Handlers.{after_recording-Reaches}
use cislunar_ground_platform.Telemetry.Storage.Tables.Rows.{row-key}
use cislunar_ground_platform.Base.Int.{pos}
use cislunar_ground_platform.Telemetry.Storage.Deliveries.{record_delivery}
use cislunar_ground_platform.GroundApi.Passes.{record_delivery-pass}
use cislunar_ground_platform.GroundApi.Delivery.{
  after_authentication, audit_safely, delivery_of, unless_settled, after_replay, replay,
  after_recording, deliver, refuse, with_body, receive_payload_data,
}
use cislunar_ground_platform.Base.{
  ℕ, Bool, true, false, Option, none, some, Bytes, String, Result, ok, err, OnOk-apply,
  ok-injective, ◌≡◌, refl, sym, ◌∙◌, subst,
}
use cislunar_ground_platform.Telemetry.World.{World}
use cislunar_ground_platform.Telemetry.Settings.{GroundSettings}
use cislunar_ground_platform.Telemetry.Storage.Records.{
  Uuid, TelemetryAuditEvent, DeliveryRecordResult, TelemetryDeliveryReceipt,
}
use cislunar_ground_platform.Telemetry.Storage.Tables.{Db, get_receipt}
use cislunar_ground_platform.Telemetry.Storage.Receipts.{Saved, record_attempt-Saved}
use cislunar_ground_platform.Telemetry.Storage.History.{Run}
use cislunar_ground_platform.Telemetry.Storage.History.Permanence.{Run-KeepsEvidence}
use cislunar_ground_platform.GroundApi.Requests.{
  ApiError, redis_error, database_error, http, Request, bounded_body, vendor_is_known,
}
use cislunar_ground_platform.GroundApi.Calls.{Call, Env, Api, and_then, transaction, query}
use cislunar_ground_platform.GroundApi.Responses.{
  Response, handle_outage, settled_by, settled_response,
}
use cislunar_ground_platform.GroundApi.Naming.{
  named_receipt, Names, Returns, and_then-Names, committed-Returns, every_ok, if-Names, names_own,
  process-Names, SettledNames, settled_by-Names,
}

-- What a lookup under i has found is the receipt i.
abbrev Found : Uuid → Option TelemetryDeliveryReceipt → Type 0
Found i none = Unit {0}
Found i (some r) = r.receipt_id ≡ i

get_receipt-Found :
    (i : Uuid) (o : Option TelemetryDeliveryReceipt) (db : Db) → get_receipt i db ≡ o → Found i o
get_receipt-Found i none db e = tt
get_receipt-Found i (some r) db e = row-key (λ x. x.receipt_id) i r db.receipts e

-- The body is kept under every receipt that the response names.
abbrev pub Backed : Bytes → Result ApiError Response × World → Type 0
Backed body (ok response, w) =
    (j : Uuid)
    → named_receipt response.content ≡ some j
    → (receipt : TelemetryDeliveryReceipt) × (get_receipt j w.db ≡ some receipt)
      × (receipt.raw_body ≡ body)
Backed body (err e, w) = Unit {0}

handle-Backed :
    (body : Bytes) (r : Result ApiError Response × World)
    → Backed body r
    → Backed body (handle_outage r)
handle-Backed body (ok response, w) h = h
handle-Backed body (err redis_error, w) h = λ j e. cc
handle-Backed body (err database_error, w) h = λ j e. cc
handle-Backed body (err _, w) h = tt

-- What was saved before a run is found after it.
Backed-intro :
    (body : Bytes) (delivery : DeliveryRecordResult) (w : World)
    (r : Result ApiError Response × World)
    → Saved body (delivery, w.db)
    → Run w.db r.1.db
    → Names delivery.receipt_id r
    → Backed body r
Backed-intro body delivery w (ok response, v) saved run names = λ j e.
    let (receipt, found, same) = saved in
    let (later, there, kept) = Run-KeepsEvidence w.db v.db run delivery.receipt_id receipt found in
    (later, subst (λ k. get_receipt k v.db ≡ some later) (sym (names j e)) there, kept.raw ∙ same)
Backed-intro body delivery w (err e, v) saved run names = tt

and_then-Backed :
    {A : Type 0} (body : Bytes) (P : A → World → Type 0) (r : Result ApiError A × World)
    (next : A → Api Response)
    → Returns P r
    → ((a : A) (w : World) → P a w → Backed body (next a w))
    → Backed body (and_then r next)
and_then-Backed body P (ok a, w) next h k = k a w h
and_then-Backed body P (err e, w) next h k = tt

module _ (env : Env) where
  unless_settled-Names :
      (o : Option Response) (settings : GroundSettings) (request : Request) (raw_body : Bytes)
      (i : Uuid) (r : TelemetryDeliveryReceipt) (w : World)
      → SettledNames i o
      → Names i (unless_settled env o settings request raw_body i r w)
  unfolding unless_settled
  unless_settled-Names (some response) settings request raw_body i r w h = h
  unless_settled-Names none settings request raw_body i r w h =
      process-Names env settings request raw_body i (some r) w

  after_replay-Names :
      (settings : GroundSettings) (request : Request) (raw_body : Bytes) (i : Uuid)
      (existing : Option TelemetryDeliveryReceipt) (w : World)
      → Found i existing
      → Names i (after_replay env settings request raw_body i existing w)
  unfolding after_replay settled_response
  after_replay-Names settings request raw_body i none w h = tt
  after_replay-Names settings request raw_body i (some r) w h =
      unless_settled-Names (settled_by r.validation_status r.queue_status r) settings request
        raw_body i r w (settled_by-Names i r.validation_status r.queue_status r h)

  after_recording-Names :
      (settings : GroundSettings) (request : Request) (raw_body : Bytes)
      (delivery : DeliveryRecordResult) (w : World)
      → Names delivery.receipt_id (after_recording env settings request raw_body delivery w)
  unfolding after_recording replay query transaction
  after_recording-Names settings request raw_body delivery w =
      let i = delivery.receipt_id in
      let w' = env.others Call.reads_receipt w in
      if-Names i delivery.request_conflict _ _ w (names_own i i refl) (
        if-Names i delivery.request_replay _ _ w
          (and_then-Names i (λ o u. Found i o) _ _
            (committed-Returns (λ o u. Found i o) (env.reply Call.reads_receipt)
              (ok (get_receipt i w'.db, w'.db)) w'
              (get_receipt-Found i (get_receipt i w'.db) w'.db refl))
            λ o u h. after_replay-Names settings request raw_body i o u h)
          (process-Names env settings request raw_body i none w))

  deliver-Backed :
      (settings : GroundSettings) (request : Request) (raw_body : Bytes) (w : World)
      → OthersRun env
      → Backed raw_body (deliver env settings request raw_body w)
  unfolding deliver transaction
  deliver-Backed settings request raw_body w others =
      let w' = env.others Call.records w in
      let d = delivery_of env request raw_body in
      handle-Backed raw_body _ (
        and_then-Backed raw_body (λ a u. Saved raw_body (a, u.db)) _ _
          (committed-Returns (λ a u. Saved raw_body (a, u.db)) (env.reply Call.records) _ w'
            (every_ok (Saved raw_body)
              (record_delivery d (λ pass. env.fresh_receipt) env.now none w'.db)
              λ q e.
                OnOk-apply (Saved raw_body) _
                  (record_attempt-Saved d env.fresh_receipt env.now w'.db)
                  (record_delivery-pass d env.fresh_receipt env.now w'.db q.1 q.0 e)))
          λ a u saved.
            Backed-intro raw_body a u _ saved
              (after_recording-Reaches env others settings request raw_body a u)
              (after_recording-Names settings request raw_body a u))

  refuse-Backed :
      (body : Bytes) (event : TelemetryAuditEvent) (status_code : ℕ) (reason : String) (w : World)
      → Backed body (refuse env event status_code reason w)
  unfolding refuse
  refuse-Backed body event status_code reason w =
      and_then-Backed body (λ a u. Unit {0}) (audit_safely env event w) _
        (done (audit_safely env event w)) λ a u h j e. cc
    where
      done : (r : Result ApiError (Unit {0}) × World) → Returns (λ a u. Unit {0}) r
      done (ok a, u) = tt
      done (err e, u) = tt

  with_body-Backed :
      (settings : GroundSettings) (request : Request) (body : Result ApiError Bytes) (all : Bytes)
      (w : World)
      → OthersRun env
      → ((b : Bytes) → body ≡ ok b → b ≡ all)
      → Backed all (with_body env settings request body w)
  unfolding with_body
  with_body-Backed settings request (ok b) all w others h =
      subst (λ x. Backed x (deliver env settings request b w)) (h b refl)
        (deliver-Backed settings request b w others)
  with_body-Backed settings request (err (http status_code)) all w others h =
      refuse-Backed all _ status_code _ w
  with_body-Backed settings request (err _) all w others h = tt

  received-Backed :
      (settings : GroundSettings) (request : Request) (known : Result ApiError Bool) (most : ℕ)
      (w : World)
      → OthersRun env
      → settings.max_telemetry_body_bytes ≡ pos most
      → Backed
          (sent request.chunks)
          (and_then (known, w) (after_authentication env settings request))
  unfolding after_authentication
  received-Backed settings request (ok true) most w others limit =
      with_body-Backed settings request (bounded_body request settings.max_telemetry_body_bytes)
        (sent request.chunks) w others
        λ b e.
          ((bounded_body_iff request most b).0
            (subst (λ z. bounded_body request z ≡ ok b) limit e)).1
  received-Backed settings request (ok false) most w others limit =
      refuse-Backed (sent request.chunks) _ 401 "INVALID_VENDOR_TOKEN" w
  received-Backed settings request (err e) most w others limit = tt

Backed-response :
    (body : Bytes) (r : Result ApiError Response × World) (response : Response) (i : Uuid)
    → Backed body r
    → r.0 ≡ ok response
    → named_receipt response.content ≡ some i
    → (receipt : TelemetryDeliveryReceipt) × (get_receipt i r.1.db ≡ some receipt)
      × (receipt.raw_body ≡ body)
Backed-response body (ok a, w) response i h e named =
    h i (subst (λ (x : Response). named_receipt x.content ≡ some i) (sym (ok-injective e)) named)
Backed-response body (err f, w) response i h e named = cc

-- Evidence comes first: whatever the request, and whatever fails or is done by other services in
-- between, if the response names a receipt, the database then holds that receipt with exactly the
-- bytes that the client sent.
pub receive_payload_data-Backed :
    (env : Env) (settings : GroundSettings) (request : Request) (most : ℕ) (w : World)
    (response : Response) (i : Uuid)
    → OthersRun env
    → settings.max_telemetry_body_bytes ≡ pos most
    → (receive_payload_data env settings request w).0 ≡ ok response
    → named_receipt response.content ≡ some i
    → (receipt : TelemetryDeliveryReceipt) × (get_receipt i
          (receive_payload_data env settings request w).1.db
        ≡ some receipt)
      × (receipt.raw_body ≡ sent request.chunks)
unfolding receive_payload_data
receive_payload_data-Backed env settings request most w response i others limit e named =
    Backed-response (sent request.chunks) (receive_payload_data env settings request w) response i
      (received-Backed env settings request (vendor_is_known request settings) most w others limit)
      e named
