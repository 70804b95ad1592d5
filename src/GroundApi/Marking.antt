-- ===== src/GroundApi/Marking.antt =====
-- services/ground_api.py: what `_queue_one` does to a job that may be queued, and to the others.
use cislunar_ground_platform.Telemetry.Queue.Transfers.{count}
use cislunar_ground_platform.Base.{
  ◌≤◌, arith, ==_iff, ◌==◌, ok-injective, raise_if-passed, if_elim, >>=-eq-ok, ◌<◌, ◌^◌, Bool, true,
  false, not, Option, none, some, Bytes, bytes_eq, bytes_eq_refl, bytes_eq→eq, Result, ok, ◌≡◌, ◌≢◌,
  refl, sym, ap, subst, ◌∙◌, ◌⊎◌, inl, inr, Bool-cases,
}
use cislunar_ground_platform.Base.Int.{ℤ}
use cislunar_ground_platform.Std.Uuid.{uuid_text, uuid_of}
use cislunar_ground_platform.Std.Uuid.RoundTrip.{uuid_of-uuid_text}
use cislunar_ground_platform.Telemetry.Queue.Messages.{
  QueueError, packet_pattern, message_error, canonical_uuid, full_match, check_text, QueueMessage,
  queue_message, to_json_bytes,
}
use cislunar_ground_platform.Telemetry.Queue.Lists.{
  Redis, get, enqueue_marked, enqueue_script, enqueue,
}
use cislunar_ground_platform.Telemetry.Storage.Records.{
  Uuid, ProcessingJobState, TelemetryProcessingJob,
}
use cislunar_ground_platform.Telemetry.Storage.Tables.{Db, get_job}
use cislunar_ground_platform.Telemetry.Storage.Tables.Rows.{row-key, row-put_ne}
use cislunar_ground_platform.Telemetry.Storage.Jobs.{
  queued_job, enqueue_job, mark_by_state, mark_job_queued,
}
use cislunar_ground_platform.Telemetry.World.{World}
use cislunar_ground_platform.GroundApi.Calls.{Env, Call}
use cislunar_ground_platform.GroundApi.Delivery.{queue_one}
use cislunar_ground_platform.GroundApi.Queueing.{
  KeepsEntries, waiting, Marked-after, IsUnmarked-after, Quiet, transaction-answered,
  script-answered, IsUnmarked, Marked, enqueue-Marked, enqueue_job-queued,
}

-- The job is queued under its identifier, or waits to be queued.
abbrev pub CanQueue : TelemetryProcessingJob → Type 0
CanQueue job =
    (job.state ≡ ProcessingJobState.pending_queue)
    ⊎ ((job.state ≡ ProcessingJobState.retry_wait)
        ⊎ ((job.state ≡ ProcessingJobState.queued)
            × (job.queue_message_id ≡ some (uuid_text job.job_id))))

-- A job that a restart may put on the queue: Redis has no marker under its identifier, or its own
-- marker with the entry.
pub record Ready (i : Uuid) (w : World) : Type 0 where
  pub job : TelemetryProcessingJob
  pub message : QueueMessage
  pub found : get_job i w.db ≡ some job
  pub named : queue_message (uuid_text i) job.packet_id ≡ ok message
  pub unmarked : IsUnmarked message w.redis
  pub can : CanQueue job

-- The job is queued, and its entry is in the pending or the processing list.
pub record IsQueued (i : Uuid) (w : World) : Type 0 where
  pub job : TelemetryProcessingJob
  pub message : QueueMessage
  pub found : get_job i w.db ≡ some job
  pub named : queue_message (uuid_text i) job.packet_id ≡ ok message
  pub marked : Marked message w.redis
  pub state : job.state ≡ ProcessingJobState.queued
  pub id : job.queue_message_id ≡ some (uuid_text job.job_id)

IsQueued-Ready : (i : Uuid) (w : World) → IsQueued i w → Ready i w
IsQueued-Ready i w q = record {
  job = q.job;
  message = q.message;
  found = q.found;
  named = q.named;
  unmarked = inr q.marked;
  can = inr (inr (q.state, q.id));
}

-- What `mark_job_queued` does to a job that can be queued.
mark_job_queued-can :
    (i : Uuid) (env : Env) (job : TelemetryProcessingJob) (db : Db)
    → get_job i db ≡ some job
    → job.job_id ≡ i
    → CanQueue job
    → (added : Bool) × (later : Db) × (mark_job_queued i (uuid_text i) "ground-api" env.now db
        ≡ ok (added, later))
      × ((later ≡ db)
            × (job.state ≡ ProcessingJobState.queued)
            × (job.queue_message_id ≡ some (uuid_text job.job_id))
          ⊎ (later ≡ (enqueue_job job (uuid_text i) "ground-api" env.now db).1))
unfolding mark_job_queued mark_by_state enqueue_job
mark_job_queued-can i env job db found own (inl pending) =
    (true, _, rw (found, pending, mark_by_state) refl, inr refl)
mark_job_queued-can i env job db found own (inr (inl retry)) =
    (true, _, rw (found, retry, mark_by_state) refl, inr refl)
mark_job_queued-can i env job db found own (inr (inr (queued, id))) = (
  false,
  db,
  rw (found, queued, mark_by_state) (rw (id, own, bytes_eq_refl (uuid_text i)) refl),
  inl (refl, queued, id),
)

queue_message-job_id : (a b : Bytes) (m : QueueMessage) → queue_message a b ≡ ok m → m.job_id ≡ a
unfolding queue_message
queue_message-job_id a b m h =
    let (u, first, h₁) = >>=-eq-ok (check_text a) _ h in
    let (v, second, h₂) = >>=-eq-ok (check_text b) _ h₁ in
    let h₃ = raise_if-passed (not (full_match canonical_uuid a)) message_error _ h₂ in
    let h₄ = raise_if-passed (not (full_match packet_pattern b)) message_error _ h₃ in
    ap (λ (m : QueueMessage). m.job_id) (sym (ok-injective h₄))

-- A message touches the marker of its own job only.
enqueue-other :
    (m : QueueMessage) (s : Redis) (key : Bytes)
    → key ≢ m.job_id
    → get key (enqueue m s).1.markers ≡ get key s.markers
unfolding enqueue enqueue_script
enqueue-other m s key other = marked (get m.job_id s.markers)
  where
    marked :
        (o : Option Bytes)
        → get key (enqueue_marked o m.job_id (to_json_bytes m) s).1.markers ≡ get key s.markers
    marked none = elim (Bool-cases (bytes_eq m.job_id key)) [
      | inl e ↦ absurd (other (sym (bytes_eq→eq m.job_id key e)))
      | inr e ↦ rw e refl
    ]
    marked (some existing) =
        if_elim (λ (r : ℤ × Redis). get key r.1.markers ≡ get key s.markers)
          (bytes_eq existing (to_json_bytes m)) _ _ refl refl

-- The script takes no entry away.
enqueue-KeepsEntries : (m : QueueMessage) (s : Redis) → KeepsEntries s (enqueue m s).1
unfolding enqueue enqueue_script
enqueue-KeepsEntries m s raw = kept (get m.job_id s.markers)
  where
    kept :
        (o : Option Bytes)
        → waiting raw s ≤ waiting raw (enqueue_marked o m.job_id (to_json_bytes m) s).1
    kept none = unfold count enqueue_marked in omega arith
    kept (some existing) =
        if_elim (λ (r : ℤ × Redis). waiting raw s ≤ waiting raw r.1)
          (bytes_eq existing (to_json_bytes m)) _ _ (omega arith) (omega arith)

enqueue_job-other :
    (k i : Uuid) (message : Bytes) (env : Env) (job : TelemetryProcessingJob) (db : Db)
    → job.job_id ≡ i
    → k ≢ i
    → get_job k (enqueue_job job message "ground-api" env.now db).1 ≡ get_job k db
unfolding enqueue_job
enqueue_job-other k i message env job db own other =
    row-put_ne (λ j. j.job_id) k (queued_job job message env.now) db.jobs λ e. other (sym e ∙ own)

-- Nothing of another job changes, and no entry is lost.
abbrev pub LeavesOthers : Uuid → World → World → Type 0
LeavesOthers i w v =
    KeepsEntries w.redis v.redis
    × ((k : Uuid)
        → k < 16 ^ 32
        → k ≢ i
        → (get_job k v.db ≡ get_job k w.db)
          × (get (uuid_text k) v.redis.markers ≡ get (uuid_text k) w.redis.markers))

-- What making a job queued leaves: the job is queued, its message is in Redis, other jobs are as
-- they were.
unfoldable pub Outcome : Uuid → World → World → Type 0
Outcome i w v = IsQueued i v × LeavesOthers i w v

different-texts : (k i : Uuid) → k < 16 ^ 32 → i < 16 ^ 32 → k ≢ i → uuid_text k ≢ uuid_text i
different-texts k i hk hi other same =
    other (sym (uuid_of-uuid_text k hk) ∙ ap (uuid_of 0) same ∙ uuid_of-uuid_text i hi)

-- What `mark_job_queued` has done to the database: nothing, or the job is queued.
abbrev Marks : Uuid → Env → TelemetryProcessingJob → Db → Db → Type 0
Marks i env job db later =
    ((later ≡ db)
      × (job.state ≡ ProcessingJobState.queued)
      × (job.queue_message_id ≡ some (uuid_text job.job_id)))
    ⊎ (later ≡ (enqueue_job job (uuid_text i) "ground-api" env.now db).1)

Marks-IsQueued :
    (i : Uuid) (env : Env) (w : World) (ready : Ready i w) (after : Redis) (later : Db)
    → ready.job.job_id ≡ i
    → Marked ready.message after
    → Marks i env ready.job w.db later
    → IsQueued i (record { redis = after; db = later })
Marks-IsQueued i env w ready after later own marked (inl (same, state, id)) = record {
  job = ready.job;
  message = ready.message;
  found = ap (get_job i) same ∙ ready.found;
  named = ready.named;
  marked = marked;
  state = state;
  id = id;
}
Marks-IsQueued i env w ready after later own marked (inr e) = record {
  job = queued_job ready.job (uuid_text i) env.now;
  message = ready.message;
  found =
      ap (get_job i) e
      ∙ enqueue_job-queued i (uuid_text i) "ground-api" env.now ready.job w.db ready.found;
  named = ready.named;
  marked = marked;
  state = refl;
  id = ap (λ k. some (uuid_text k)) (sym own);
}

Marks-LeavesOthers :
    (i : Uuid) (env : Env) (w : World) (ready : Ready i w) (fresh : Bool) (after : Redis)
    (later : Db)
    → i < 16 ^ 32
    → ready.job.job_id ≡ i
    → enqueue ready.message w.redis ≡ (ok fresh, after)
    → Marks i env ready.job w.db later
    → LeavesOthers i w (record { redis = after; db = later })
Marks-LeavesOthers i env w ready fresh after later bound own enqueued what = (
  λ raw.
      subst (λ (r : Result QueueError Bool × Redis). waiting raw w.redis ≤ waiting raw r.1) enqueued
        (enqueue-KeepsEntries ready.message w.redis raw),
  λ k hk other. (
    elim what [
      | inl (same, state, id) ↦ ap (get_job k) same
      | inr e ↦ ap (get_job k) e ∙ enqueue_job-other k i (uuid_text i) env ready.job w.db own other
    ],
    ap (λ (r : Result QueueError Bool × Redis). get (uuid_text k) r.1.markers) (sym enqueued)
        ∙ enqueue-other ready.message w.redis (uuid_text k) (λ e.
          different-texts k i hk bound other
            (e ∙ queue_message-job_id (uuid_text i) ready.job.packet_id ready.message ready.named)),
  ),
)

module _ (env : Env) (quiet : Quiet env) where
  pub queue_one-Outcome :
      (i : Uuid) (w : World) (ready : Ready i w)
      → i < 16 ^ 32
      → (added : Bool) × (v : World) × (queue_one env i ready.job.packet_id w ≡ (ok added, v))
        × Outcome i w v
  unfolding queue_one
  queue_one-Outcome i w ready bound =
      let m = ready.message in
      let job = ready.job in
      let own : job.job_id ≡ i = row-key (λ j. j.job_id) i job w.db.jobs ready.found in
      let (fresh, after, enqueued, marked) = enqueue-Marked m w.redis ready.unmarked in
      let u : World = record w { redis = after } in
      let (added, later, marks, what) =
        mark_job_queued-can i env job w.db ready.found own ready.can in
      let v : World = record { redis = after; db = later } in
      let run : queue_one env i job.packet_id w ≡ (ok added, v) = rw ready.named (
        rw (script-answered env quiet Call.enqueues (enqueue m) w fresh after enqueued) (
          transaction-answered env quiet Call.marks
            (mark_job_queued i (uuid_text i) "ground-api" env.now) u added later marks)) in
      (
        added,
        v,
        run,
        (unfold Outcome in
            (
              Marks-IsQueued i env w ready after later own marked what,
              Marks-LeavesOthers i env w ready fresh after later bound own enqueued what,
            )),
      )

own_marker :
    (k : Uuid) (w v : World) (packet_id : Bytes) (m : QueueMessage)
    → queue_message (uuid_text k) packet_id ≡ ok m
    → get (uuid_text k) v.redis.markers ≡ get (uuid_text k) w.redis.markers
    → get m.job_id v.redis.markers ≡ get m.job_id w.redis.markers
own_marker k w v packet_id m named =
    subst
      (λ key.
        get (uuid_text k) v.redis.markers ≡ get (uuid_text k) w.redis.markers
        → get key v.redis.markers ≡ get key w.redis.markers)
      (sym (queue_message-job_id (uuid_text k) packet_id m named)) (λ e. e)

-- Other jobs keep what is known of them.
pub Ready-after : (i k : Uuid) (w v : World) → Outcome i w v → k < 16 ^ 32 → Ready k w → Ready k v
unfolding Outcome
Ready-after i k w v (queued, leaves) bound r = elim (Bool-cases (k == i)) [
  | inl e ↦ subst (λ j. Ready j v) (sym ((==_iff k i).0 e)) (IsQueued-Ready i v queued)
  | inr e ↦
      let (job, marker) = leaves.1 k bound (λ same. cc (e, (==_iff k i).1 same)) in
      record {
        job = r.job;
        message = r.message;
        found = job ∙ r.found;
        named = r.named;
        unmarked =
            IsUnmarked-after r.message w.redis v.redis
              (own_marker k w v r.job.packet_id r.message r.named marker) leaves.0 r.unmarked;
        can = r.can;
      }
]

pub IsQueued-after :
    (i k : Uuid) (w v : World) → Outcome i w v → k < 16 ^ 32 → IsQueued k w → IsQueued k v
unfolding Outcome
IsQueued-after i k w v (queued, leaves) bound r = elim (Bool-cases (k == i)) [
  | inl e ↦ subst (λ j. IsQueued j v) (sym ((==_iff k i).0 e)) queued
  | inr e ↦
      let (job, marker) = leaves.1 k bound (λ same. cc (e, (==_iff k i).1 same)) in
      record {
        job = r.job;
        message = r.message;
        found = job ∙ r.found;
        named = r.named;
        marked =
            Marked-after r.message w.redis v.redis
              (own_marker k w v r.job.packet_id r.message r.named marker) leaves.0 r.marked;
        state = r.state;
        id = r.id;
      }
]
