-- ===== src/GroundApi/Calls.antt =====
-- services/ground_api.py: the calls that a handler makes to the database and to Redis. Each may be
-- answered, may fail before it has taken effect, or may take effect and lose its answer.
use cislunar_ground_platform.Base.{Result, ok, err}
use cislunar_ground_platform.Telemetry.Queue.Messages.{QueueError}
use cislunar_ground_platform.Telemetry.Queue.Lists.{Redis}
use cislunar_ground_platform.Telemetry.Storage.Records.{
  Uuid, Instant, StorageError, integrity_error,
}
use cislunar_ground_platform.Telemetry.Storage.Tables.{Db}
use cislunar_ground_platform.Telemetry.World.{World}
use cislunar_ground_platform.GroundApi.Requests.{
  ApiError, redis_error, database_error, storage, queue,
}

-- The calls of one request; none of them is made twice.
pub data Call : Type 0 where
  audits records reads_receipt rejects reads_job accepts enqueues marks : Call
  reads_packet reads_source reads_result reads_events lists_jobs : Call

pub data Reply : Type 0 where
  answered refused lost : Reply

-- What surrounds one request: the time it is received at and the time of its transactions, the
-- random identifiers, the fate of each call, and what other services have committed to both stores
-- just before a call. A race inside one transaction needs no case of its own: the pass that succeeds
-- runs on what the others have left.
pub record Env : Type 0 where
  pub received_at : Instant
  pub now : Instant
  pub fresh_receipt : Uuid
  pub fresh_job : Uuid
  pub reply : Call → Reply
  pub others : Call → World → World

-- A handler's step: it raises or returns, and leaves the stores as they are then.
abbrev pub Api : Type 0 → Type 0
Api A = World → Result ApiError A × World

abbrev pub and_then :
    {A B : Type 0} → Result ApiError A × World → (A → Api B) → Result ApiError B × World
and_then (ok a, w) next = next a w
and_then (err e, w) next = (err e, w)

infixl 5 ◌>>=◌ ◌>>◌
abbrev pub ◌>>=◌ : {A B : Type 0} → Api A → (A → Api B) → Api B
◌>>=◌ step next w = and_then (step w) next

abbrev pub ◌>>◌ : {B : Type 0} → Api (Unit {0}) → Api B → Api B
step >> next = step >>= λ done. next

abbrev pub return : {A : Type 0} → A → Api A
return a w = (ok a, w)

abbrev pub raise : {A : Type 0} → ApiError → Api A
raise e w = (err e, w)

-- An `IntegrityError` is an error of the database driver.
abbrev pub from_storage : StorageError → ApiError
from_storage integrity_error = database_error
from_storage e = storage e

-- A transaction of the repository. What raises is rolled back.
unfoldable pub committed : {A : Type 0} → Reply → Result StorageError (A × Db) → Api A
committed Reply.answered (ok (a, db)) w = (ok a, record w { db = db })
committed Reply.answered (err e) w = (err (from_storage e), w)
committed Reply.refused m w = (err database_error, w)
committed Reply.lost (ok (a, db)) w = (err database_error, record w { db = db })
committed Reply.lost (err e) w = (err database_error, w)

-- What a script has done, where it was answered.
abbrev pub from_queue : {A : Type 0} → Result QueueError A → Result ApiError A
from_queue (ok a) = ok a
from_queue (err e) = err (queue e)

unfoldable pub ran : {A : Type 0} → Reply → Result QueueError A × Redis → Api A
ran Reply.answered (result, redis) w = (from_queue result, record w { redis = redis })
ran Reply.refused (result, redis) w = (err redis_error, w)
ran Reply.lost (result, redis) w = (err redis_error, record w { redis = redis })

-- A read that raises leaves the database as it is, and so does one that returns.
abbrev pub from_read : {A : Type 0} → Result StorageError A → Db → Result StorageError (A × Db)
from_read (ok a) db = ok (a, db)
from_read (err e) db = err e

module _ (env : Env) where
  unfoldable pub transaction : {A : Type 0} → Call → (Db → Result StorageError (A × Db)) → Api A
  unfolding committed
  transaction call body w = let w' = env.others call w in committed (env.reply call) (body w'.db) w'

  -- A transaction that only reads.
  unfoldable pub query : {A : Type 0} → Call → (Db → A) → Api A
  unfolding transaction
  query call body = transaction call (λ db. ok (body db, db))

  -- A script that Redis runs.
  unfoldable pub script : {A : Type 0} → Call → (Redis → Result QueueError A × Redis) → Api A
  unfolding ran
  script call body w = let w' = env.others call w in ran (env.reply call) (body w'.redis) w'
