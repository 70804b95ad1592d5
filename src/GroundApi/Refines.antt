-- ===== src/GroundApi/Refines.antt =====
-- services/ground_api.py: what each call does to the database is a run of the repository's
-- transactions, whatever fails and whatever other services do in between.
pub mod Handlers
use cislunar_ground_platform.Base.{
  ℕ, Bool, true, false, Option, none, some, Result, ok, err, ◌≡◌, refl, ap, subst, inl, inr, Bytes,
  String, ok-injective, Bool-cases, if_elim, if◌then◌else◌,
}
use cislunar_ground_platform.Telemetry.Queue.Messages.{QueueError}
use cislunar_ground_platform.Telemetry.Queue.Lists.{Redis}
use cislunar_ground_platform.Telemetry.Storage.Records.{
  Uuid, StorageError, DeliveryRecordResult, PacketAcceptanceResult, TelemetryDeliveryReceipt,
  TelemetryAuditEvent, DecodedTelemetryValues, Instant,
}
use cislunar_ground_platform.Telemetry.Storage.Tables.{Db}
use cislunar_ground_platform.Telemetry.Storage.History.{Step, Run, here, next}
use cislunar_ground_platform.Telemetry.World.{World}
use cislunar_ground_platform.Telemetry.Codec as Codec
use cislunar_ground_platform.Telemetry.Codec.{TelemetryFrame, CodecError, decode_telemetry}
use cislunar_ground_platform.Std.Datetime.{utc}
use cislunar_ground_platform.Telemetry.Settings.{GroundSettings}
use cislunar_ground_platform.Telemetry.Storage.Deliveries.{
  Delivery, record_attempt, record_delivery, reject_delivery,
}
use cislunar_ground_platform.Telemetry.Storage.Acceptance.{
  accept_packet_transaction, accept_packet_and_create_job,
}
use cislunar_ground_platform.GroundApi.Responses.{
  Response, handle_outage, suppress_database, is_pending_queue, settled_response, waiting,
}
use cislunar_ground_platform.GroundApi.Requests.{
  ApiError, redis_error, database_error, Request, canonical_uuid4_of, is_octet_stream,
  vendor_is_known, bounded_body,
}
use cislunar_ground_platform.GroundApi.Delivery
use cislunar_ground_platform.GroundApi.Calls.{
  Call, Reply, Env, Api, and_then, committed, ran, transaction, query, script,
}

-- The other services too only commit transactions of the repository.
abbrev pub OthersRun : Env → Type 0
OthersRun env = (call : Call) (w : World) → Run w.db (env.others call w).db

abbrev pub Reaches : {A : Type 0} → World → Result ApiError A × World → Type 0
Reaches w r = Run w.db r.1.db

pub Run-trans : {a b c : Db} → Run a b → Run b c → Run a c
Run-trans r here = r
Run-trans r (next s step) = next (Run-trans r s) step

pub and_then-Reaches :
    {A B : Type 0} (w : World) (r : Result ApiError A × World) (after : A → Api B)
    → Reaches w r
    → ((a : A) (u : World) → Reaches u (after a u))
    → Reaches w (and_then r after)
and_then-Reaches w (ok a, u) after h k = Run-trans h (k a u)
and_then-Reaches w (err e, u) after h k = h

committed-Reaches :
    {A : Type 0} (reply : Reply) (m : Result StorageError (A × Db)) (w : World)
    → ((a : A) (db : Db) → m ≡ ok (a, db) → Run w.db db)
    → Reaches w (committed reply m w)
unfolding committed
committed-Reaches Reply.answered (ok (a, db)) w h = h a db refl
committed-Reaches Reply.answered (err e) w h = here
committed-Reaches Reply.refused m w h = here
committed-Reaches Reply.lost (ok (a, db)) w h = h a db refl
committed-Reaches Reply.lost (err e) w h = here

ran-Reaches :
    {A : Type 0} (reply : Reply) (r : Result QueueError A × Redis) (w : World)
    → Reaches w (ran reply r w)
unfolding ran
ran-Reaches Reply.answered (m, redis) w = here
ran-Reaches Reply.refused (m, redis) w = here
ran-Reaches Reply.lost (m, redis) w = here

module _ (env : Env) (others : OthersRun env) where
  pub transaction-Reaches :
      {A : Type 0} (call : Call) (body : Db → Result StorageError (A × Db))
      → ((db db' : Db) (a : A) → body db ≡ ok (a, db') → Run db db')
      → (w : World) → Reaches w (transaction env call body w)
  unfolding transaction
  transaction-Reaches call body h w = Run-trans (others call w) (
      committed-Reaches (env.reply call) (body (env.others call w).db) (env.others call w)
        (λ a db e. h (env.others call w).db db a e))

  pub query-Reaches :
      {A : Type 0} (call : Call) (body : Db → A) (w : World) → Reaches w (query env call body w)
  unfolding query
  query-Reaches call body w =
      transaction-Reaches call (λ db. ok (body db, db))
        (λ db db' a e. subst (λ d. Run db d) (ap (λ q. q.1) (ok-injective e)) here) w

  pub script-Reaches :
      {A : Type 0} (call : Call) (body : Redis → Result QueueError A × Redis) (w : World)
      → Reaches w (script env call body w)
  unfolding script
  script-Reaches call body w =
      Run-trans (others call w)
        (ran-Reaches (env.reply call) (body (env.others call w).redis) (env.others call w))
