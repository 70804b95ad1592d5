-- ===== src/Telemetry/Storage/Completion.antt =====
-- storage.py: `complete_processing_job` and `fail_processing_attempt`.
use cislunar_ground_platform.Base.{
  ℕ, ◌+◌, ◌-◌, ◌*◌, ◌^◌, min, Bool, true, false, not, ◌&&◌, ◌||◌, Option, none, some, List, [], ◌∷◌,
  String, str_eq, leb, ◌==◌, if◌then◌else◌, Result, ok, err, ◌>>=◌, ◌>>◌, raise_if, or_raise,
}
use cislunar_ground_platform.Base.Int.{pos, eqb_ℤ}
use cislunar_ground_platform.Telemetry.Storage.Records.{
  Uuid, Instant, ProcessingJobState, Value, HealthClassification, TelemetryProcessingJob,
  ProcessedTelemetry, ProcessingResultValues, ProcessingFailureResult, StorageError, value_error,
  invalid_delivery_state, processing_job_not_found, processing_result_conflict,
}
use cislunar_ground_platform.Telemetry.Storage.Tables.{
  Db, get_job, get_processed, save_job, add_audit, insert_processed,
}
use cislunar_ground_platform.Telemetry.Storage.Jobs.{job_event, text_is, settle}

unfoldable pub texts_eq : List String → List String → Bool
texts_eq [] [] = true
texts_eq [] (y ∷ ys) = false
texts_eq (x ∷ xs) [] = false
texts_eq (x ∷ xs) (y ∷ ys) = str_eq x y && texts_eq xs ys

abbrev pub class_rank : HealthClassification → ℕ
class_rank HealthClassification.nominal = 0
class_rank HealthClassification.warning = 1
class_rank HealthClassification.critical = 2

abbrev pub bool_eq : Bool → Bool → Bool
bool_eq true b = b
bool_eq false b = not b

-- `_same_processing_result`
unfoldable pub same_processing_result : ProcessingResultValues → ProcessingResultValues → Bool
unfolding texts_eq
same_processing_result stored candidate =
    eqb_ℤ stored.temperature_c candidate.temperature_c
    && (eqb_ℤ stored.voltage_v candidate.voltage_v
        && (str_eq stored.operating_mode candidate.operating_mode
            && (texts_eq stored.fault_names candidate.fault_names
                && (class_rank stored.classification == class_rank candidate.classification
                    && (bool_eq stored.is_stale candidate.is_stale
                        && str_eq stored.processor_version candidate.processor_version)))))

abbrev pub class_name : HealthClassification → String
class_name HealthClassification.nominal = "NOMINAL"
class_name HealthClassification.warning = "WARNING"
class_name HealthClassification.critical = "CRITICAL"

abbrev pub is_processing : ProcessingJobState → Bool
is_processing ProcessingJobState.processing = true
is_processing _ = false

abbrev pub new_result :
    TelemetryProcessingJob → ProcessingResultValues → Instant → ProcessedTelemetry
new_result job result completion_time = record {
  packet_id = job.packet_id;
  processing_job_id = job.job_id;
  result = result;
  processed_at = completion_time;
}

abbrev pub completed_job : TelemetryProcessingJob → Instant → TelemetryProcessingJob
completed_job job completion_time = record job {
  state = ProcessingJobState.complete;
  completed_at = some completion_time;
  lease_expires_at = none;
  next_attempt_at = none;
  last_error = none;
  updated_at = completion_time;
}

unfoldable pub store_result :
    TelemetryProcessingJob
    → ProcessingResultValues
    → String
    → Instant
    → Db
    → Result StorageError (ProcessedTelemetry × Db)
store_result job result worker_id completion_time db = do
  raise_if (not (is_processing job.state)) invalid_delivery_state
  raise_if (not (text_is worker_id job.claimed_by)) invalid_delivery_state
  with_result ← insert_processed (new_result job result completion_time) db
  let event =
      job_event completion_time "payload-worker" "telemetry.processing.completed" worker_id
        "COMPLETE" none none job.packet_id job.job_id
        (("classification", Value.text (class_name result.classification))
          ∷ ("is_stale", Value.flag result.is_stale)
          ∷ [])
  ok (
    new_result job result completion_time,
    add_audit event (save_job (completed_job job completion_time) with_result),
  )

unfoldable pub complete_or_replay :
    Option ProcessedTelemetry
    → TelemetryProcessingJob
    → ProcessingResultValues
    → String
    → Instant
    → Instant
    → Db
    → Result StorageError (ProcessedTelemetry × Db)
unfolding store_result
complete_or_replay none job result worker_id completion_time now db =
    store_result job result worker_id completion_time db
complete_or_replay (some existing) job result worker_id completion_time now db = do
  raise_if (not (same_processing_result existing.result result)) processing_result_conflict
  ok (existing, save_job (settle job existing now) db)

-- `completion_time` is `processed_at or utc_now()`.
unfoldable pub complete_processing_job :
    Uuid
    → ProcessingResultValues
    → String
    → Instant
    → Instant
    → Db
    → Result StorageError (ProcessedTelemetry × Db)
unfolding complete_or_replay
complete_processing_job job_id result worker_id completion_time now db = do
  job ← or_raise (get_job job_id db) processing_job_not_found
  complete_or_replay (get_processed job.packet_id db) job result worker_id completion_time now db

-- base * 2 ** max(attempt_count - 1, 0), at most 300 seconds
unfoldable pub backoff_seconds : ℕ → ℕ → ℕ
backoff_seconds base_backoff_seconds attempt_count =
    min (base_backoff_seconds * 2 ^ (attempt_count - 1)) 300

abbrev pub is_exhausted : TelemetryProcessingJob → Bool
is_exhausted job = leb job.max_attempts job.attempt_count

abbrev pub given_up_job : TelemetryProcessingJob → String → Instant → TelemetryProcessingJob
given_up_job job reason failure_time = record job {
  state = ProcessingJobState.failed;
  last_error = some reason;
  lease_expires_at = none;
  failed_at = some failure_time;
  next_attempt_at = none;
  updated_at = failure_time;
}

abbrev pub waiting_job : TelemetryProcessingJob → String → ℕ → Instant → TelemetryProcessingJob
waiting_job job reason base_backoff_seconds failure_time = record job {
  state = ProcessingJobState.retry_wait;
  last_error = some reason;
  lease_expires_at = none;
  next_attempt_at =
      some (failure_time + backoff_seconds base_backoff_seconds job.attempt_count * 1000000);
  updated_at = failure_time;
}

abbrev pub failure_result : TelemetryProcessingJob → ProcessingFailureResult
failure_result job = record {
  job_id = job.job_id;
  state = job.state;
  attempt_count = job.attempt_count;
  next_attempt_at = job.next_attempt_at;
}

unfoldable pub save_failure :
    TelemetryProcessingJob
    → String
    → String
    → String
    → String
    → Instant
    → Db
    → ProcessingFailureResult × Db
save_failure changed event_name outcome worker_id reason failure_time db =
    let event =
      job_event failure_time "payload-worker" event_name worker_id outcome (some reason) none
        changed.packet_id changed.job_id
        (("attempt_count", Value.integer (pos changed.attempt_count))
          ∷ ("max_attempts", Value.integer (pos changed.max_attempts))
          ∷ ("next_attempt_at", Value.moment changed.next_attempt_at)
          ∷ []) in
    (failure_result changed, add_audit event (save_job changed db))

unfoldable pub fail_by_state :
    ProcessingJobState
    → TelemetryProcessingJob
    → String
    → String
    → Bool
    → ℕ
    → Instant
    → Db
    → Result StorageError (ProcessingFailureResult × Db)
unfolding save_failure
fail_by_state ProcessingJobState.failed job worker_id reason temporary base failure_time db =
    ok (record (failure_result job) { next_attempt_at = none }, db)
fail_by_state ProcessingJobState.processing job worker_id reason temporary base failure_time db = do
  raise_if (not (text_is worker_id job.claimed_by)) invalid_delivery_state
  ok (
      if not temporary || is_exhausted job
      then save_failure (given_up_job job reason failure_time) "telemetry.processing.failed"
          "FAILED" worker_id reason failure_time db
      else save_failure (waiting_job job reason base failure_time)
          "telemetry.processing.retry_scheduled" "RETRY_WAIT" worker_id reason failure_time db)
fail_by_state _ job worker_id reason temporary base failure_time db = err invalid_delivery_state

-- `failure_time` is `now or utc_now()`.
unfoldable pub fail_processing_attempt :
    Uuid
    → String
    → String
    → Bool
    → ℕ
    → Instant
    → Db
    → Result StorageError (ProcessingFailureResult × Db)
unfolding fail_by_state
fail_processing_attempt job_id worker_id reason temporary base failure_time db = do
  raise_if (base == 0) value_error
  job ← or_raise (get_job job_id db) processing_job_not_found
  fail_by_state job.state job worker_id reason temporary base failure_time db
