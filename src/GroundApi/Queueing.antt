-- ===== src/GroundApi/Queueing.antt =====
-- services/ground_api.py, `_queue_one`: the reference goes to Redis and the job becomes queued.
use cislunar_ground_platform.Base.{
  ℕ, ◌+◌, ◌≤◌, arith, ◌∷◌, Bool, true, false, none, some, Bytes, bytes_eq_refl, String, Result, ok,
  ◌≡◌, refl, ap, ◌∙◌, ◌⊎◌, inl, inr,
}
use cislunar_ground_platform.Std.Uuid.{uuid_text}
use cislunar_ground_platform.Telemetry.Queue.Messages.{
  QueueError, QueueMessage, queue_message, to_json_bytes,
}
use cislunar_ground_platform.Telemetry.Queue.Lists.{
  Redis, get, enqueue_marked, enqueue_script, enqueue,
}
use cislunar_ground_platform.Telemetry.Queue.Transfers.{count}
use cislunar_ground_platform.Telemetry.Storage.Records.{
  Uuid, Instant, ProcessingJobState, StorageError, TelemetryProcessingJob,
}
use cislunar_ground_platform.Telemetry.Storage.Tables.{Db, get_job}
use cislunar_ground_platform.Telemetry.Storage.Jobs.{
  queued_job, enqueue_job, mark_by_state, mark_job_queued,
}
use cislunar_ground_platform.Telemetry.Storage.Jobs.Lifecycle.{get_job-save_job}
use cislunar_ground_platform.Telemetry.World.{World}
use cislunar_ground_platform.GroundApi.Calls.{
  Call, Reply, Env, committed, ran, transaction, query, script,
}
use cislunar_ground_platform.GroundApi.Delivery.{queue_one}

-- Every call is answered, and no other service works in between.
pub record Quiet (env : Env) : Type 0 where
  pub answers : (call : Call) → env.reply call ≡ Reply.answered
  pub alone : (call : Call) (w : World) → env.others call w ≡ w

module _ (env : Env) (quiet : Quiet env) where
  pub transaction-answered :
      {A : Type 0} (call : Call) (body : Db → Result StorageError (A × Db)) (w : World) (a : A)
      (db : Db)
      → body w.db ≡ ok (a, db)
      → transaction env call body w ≡ (ok a, record w { db = db })
  unfolding transaction committed
  transaction-answered call body w a db h = rw (quiet.alone call w, quiet.answers call, h) refl

  pub query-answered :
      {A : Type 0} (call : Call) (body : Db → A) (w : World)
      → query env call body w ≡ (ok (body w.db), w)
  unfolding query
  query-answered call body w =
      transaction-answered call (λ db. ok (body db, db)) w (body w.db) w.db refl

  pub script-answered :
      {A : Type 0} (call : Call) (body : Redis → Result QueueError A × Redis) (w : World) (a : A)
      (redis : Redis)
      → body w.redis ≡ (ok a, redis)
      → script env call body w ≡ (ok a, record w { redis = redis })
  unfolding script ran
  script-answered call body w a redis h = rw (quiet.alone call w, quiet.answers call, h) refl

-- How often an entry stands where a worker finds it: in the pending list, or in the processing list
-- that recovery moves back.
abbrev pub waiting : Bytes → Redis → ℕ
waiting raw s = count raw s.pending + count raw s.processing

-- The entry of the message is in a list of Redis that is worked off, and the job's marker is its.
abbrev pub Marked : QueueMessage → Redis → Type 0
Marked m s = (get m.job_id s.markers ≡ some (to_json_bytes m)) × (1 ≤ waiting (to_json_bytes m) s)

-- Redis has no marker of the job, or the marker and the entry that this message leaves.
abbrev pub IsUnmarked : QueueMessage → Redis → Type 0
IsUnmarked m s = (get m.job_id s.markers ≡ none) ⊎ Marked m s

-- No entry is lost.
abbrev pub KeepsEntries : Redis → Redis → Type 0
KeepsEntries s s' = (raw : Bytes) → waiting raw s ≤ waiting raw s'

pub Marked-after :
    (m : QueueMessage) (s s' : Redis)
    → get m.job_id s'.markers ≡ get m.job_id s.markers
    → KeepsEntries s s'
    → Marked m s
    → Marked m s'
Marked-after m s s' same keeps (marker, listed) =
    (same ∙ marker, omega (arith, keeps (to_json_bytes m), listed))

pub IsUnmarked-after :
    (m : QueueMessage) (s s' : Redis)
    → get m.job_id s'.markers ≡ get m.job_id s.markers
    → KeepsEntries s s'
    → IsUnmarked m s
    → IsUnmarked m s'
IsUnmarked-after m s s' same keeps (inl new) = inl (same ∙ new)
IsUnmarked-after m s s' same keeps (inr old) = inr (Marked-after m s s' same keeps old)

pub enqueue-Marked :
    (m : QueueMessage) (s : Redis)
    → IsUnmarked m s
    → (added : Bool) × (after : Redis) × (enqueue m s ≡ (ok added, after)) × Marked m after
unfolding enqueue enqueue_script enqueue_marked count
enqueue-Marked m s (inl new) = (
  true,
  record s {
    markers = (m.job_id, to_json_bytes m) ∷ s.markers;
    pending = to_json_bytes m ∷ s.pending;
  },
  rw (new, enqueue_marked) refl,
  (
    (unfold get in rw (bytes_eq_refl m.job_id) refl),
    rw (bytes_eq_refl (to_json_bytes m)) (omega arith),
  ),
)
enqueue-Marked m s (inr old) =
    (false, s, rw (old.0, enqueue_marked) (rw (bytes_eq_refl (to_json_bytes m)) refl), old)

mark_job_queued-pending :
    (i : Uuid) (message : Bytes) (actor : String) (now : Instant) (job : TelemetryProcessingJob)
    (db : Db)
    → get_job i db ≡ some job
    → job.state ≡ ProcessingJobState.pending_queue
    → mark_job_queued i message actor now db ≡ ok (enqueue_job job message actor now db)
unfolding mark_job_queued
mark_job_queued-pending i message actor now job db found waits =
    rw found
      (ap (λ s. mark_by_state s job message actor now db) waits ∙ (unfold mark_by_state in refl))

module _ (env : Env) (quiet : Quiet env) where
  -- A job that waits for the queue becomes queued, and its entry is in Redis.
  pub queue_one-Marked :
      (i : Uuid) (packet_id : Bytes) (m : QueueMessage) (job : TelemetryProcessingJob) (w : World)
      → queue_message (uuid_text i) packet_id ≡ ok m
      → IsUnmarked m w.redis
      → get_job i w.db ≡ some job
      → job.state ≡ ProcessingJobState.pending_queue
      → (after : Redis) × (queue_one env i packet_id w ≡ (
        ok true,
        record { redis = after; db = (enqueue_job job (uuid_text i) "ground-api" env.now w.db).1 },
      ))
        × Marked m after
  unfolding queue_one
  queue_one-Marked i packet_id m job w named unmarked found waits =
      let (added, after, enqueued, marked) = enqueue-Marked m w.redis unmarked in
      let u : World = record w { redis = after } in
      let marks =
        transaction-answered env quiet Call.marks
          (mark_job_queued i (uuid_text i) "ground-api" env.now) u true
          (enqueue_job job (uuid_text i) "ground-api" env.now w.db).1
          (mark_job_queued-pending i (uuid_text i) "ground-api" env.now job w.db found waits
            ∙ (unfold enqueue_job in refl)) in
      (
        after,
        rw named
            (rw (script-answered env quiet Call.enqueues (enqueue m) w added after enqueued) marks),
        marked,
      )

-- What `mark_job_queued` leaves of the job.
pub enqueue_job-queued :
    (i : Uuid) (message : Bytes) (actor : String) (now : Instant) (job : TelemetryProcessingJob)
    (db : Db)
    → get_job i db ≡ some job
    → get_job i (enqueue_job job message actor now db).1 ≡ some (queued_job job message now)
unfolding enqueue_job
enqueue_job-queued i message actor now job db found =
    get_job-save_job i job (queued_job job message now) db found refl
