-- ===== src/Telemetry/Storage/Queries.antt =====
-- storage.py: the read-only queries on jobs and audit events, and `record_audit_event`.
pub mod Oldest
use cislunar_ground_platform.Base.{
  ℕ, Bool, true, false, not, ◌&&◌, List, [], ◌∷◌, leb, if◌then◌else◌, map, take, reverse, length,
  Result, ok, ◌>>◌, raise_if,
}
use cislunar_ground_platform.Telemetry.Storage.Records.{
  Uuid, Instant, ProcessingJobState, TelemetryProcessingJob, TelemetryAuditEvent, StorageError,
  value_error,
}
use cislunar_ground_platform.Telemetry.Storage.Tables.{Db, add_audit}
use cislunar_ground_platform.Telemetry.Storage.Jobs.{is_due}

module _ {A : Type 0} where
  -- `WHERE`
  unfoldable pub select : (A → Bool) → List A → List A
  select p [] = []
  select p (x ∷ xs) = if p x then x ∷ select p xs else select p xs

  unfoldable pub insert_by : (A → ℕ) → A → List A → List A
  insert_by key x [] = x ∷ []
  insert_by key x (y ∷ ys) = if leb (key x) (key y) then x ∷ y ∷ ys else y ∷ insert_by key x ys

  -- `ORDER BY`, by insertion
  unfoldable pub order_by : (A → ℕ) → List A → List A
  unfolding insert_by
  order_by key [] = []
  order_by key (x ∷ xs) = insert_by key x (order_by key xs)

-- PENDING_QUEUE, or a retry whose time has come.
abbrev pub wants_queue : Instant → TelemetryProcessingJob → Bool
wants_queue now job = elim job.state [
  | ProcessingJobState.pending_queue ↦ true
  | ProcessingJobState.retry_wait ↦ is_due job.next_attempt_at now
  | _ ↦ false
]

-- QUEUED too, since the reference in Redis may be lost.
abbrev pub is_recoverable : Instant → TelemetryProcessingJob → Bool
is_recoverable now job = elim job.state [
  | ProcessingJobState.queued ↦ true
  | ProcessingJobState.pending_queue ↦ true
  | ProcessingJobState.retry_wait ↦ is_due job.next_attempt_at now
  | _ ↦ false
]

abbrev pub oldest_ids : (TelemetryProcessingJob → Bool) → ℕ → Db → List Uuid
oldest_ids p limit db =
    map (λ job. job.job_id) (take limit (order_by (λ job. job.created_at) (select p db.jobs)))

abbrev pub check_limit : ℕ → ℕ → Result StorageError (Unit {0})
check_limit limit most = raise_if (not (leb 1 limit && leb limit most)) value_error

unfoldable pub pending_queue_jobs : ℕ → Instant → Db → Result StorageError (List Uuid)
pending_queue_jobs limit now db = do
  check_limit limit 1000
  ok (oldest_ids (wants_queue now) limit db)

unfoldable pub recoverable_queue_jobs : ℕ → Instant → Db → Result StorageError (List Uuid)
recoverable_queue_jobs limit now db = do
  check_limit limit 10000
  ok (oldest_ids (is_recoverable now) limit db)

abbrev pub is_open : TelemetryProcessingJob → Bool
is_open job = elim job.state [
  | ProcessingJobState.complete ↦ false
  | ProcessingJobState.failed ↦ false
  | _ ↦ true
]

-- Durable work that has not reached a final state.
unfoldable pub processing_queue_depth : Db → ℕ
processing_queue_depth db = length (select is_open db.jobs)

-- `ORDER BY occurred_at DESC`
unfoldable pub list_audit_events : ℕ → Db → Result StorageError (List TelemetryAuditEvent)
list_audit_events limit db = do
  check_limit limit 1000
  ok (take limit (reverse (order_by (λ event. event.occurred_at) db.audit)))

unfoldable pub record_audit_event : TelemetryAuditEvent → Db → TelemetryAuditEvent × Db
record_audit_event event db = (event, add_audit event db)
