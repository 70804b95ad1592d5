-- ===== src/Telemetry/Storage/History/Changes.antt =====
-- The transactions of a job's life, and then any transaction, as changes of the jobs and packets.
use cislunar_ground_platform.Base.{
  Bytes, ℕ, Bool, true, false, not, ◌||◌, Option, none, some, String, ◌==◌, ok, raise_if, or_raise,
  or_raise-eq-ok, OnOk, if_elim, OnOk-bind, OnOk-apply, ◌≡◌, refl, ap, arith, inl, inr, Bool-cases,
  str_eq,
}
use cislunar_ground_platform.Telemetry.Storage.Records.{
  Uuid, Instant, TelemetryProcessingJob, ProcessedTelemetry, ProcessingResultValues,
  ProcessingFailureResult, ProcessingJobState, processing_job_not_found, value_error, storage_error,
  invalid_delivery_state, processing_result_conflict,
}
use cislunar_ground_platform.Telemetry.Storage.Tables.{
  Db, get_receipt, save_job, get_job, get_packet, get_processed, insert_processed,
}
use cislunar_ground_platform.Telemetry.Storage.Jobs.{
  enqueue_job, queued_job, claimed_job, settle, mark_by_state, mark_job_queued, claim_work,
  claim_or_settle, claim_processing_job, text_is, codes_are, is_complete, is_claimable,
}
use cislunar_ground_platform.Telemetry.Storage.Completion.{
  store_result, complete_or_replay, complete_processing_job, save_failure, fail_by_state,
  fail_processing_attempt, new_result, is_processing, same_processing_result, completed_job,
  given_up_job, waiting_job, is_exhausted,
}
use cislunar_ground_platform.Telemetry.Storage.History.{
  Step, records, rejects, accepts, marks, claims, completes, fails, audits,
}
use cislunar_ground_platform.Telemetry.Storage.History.Progress.{
  Advances, Untouched, Change, idle, moves, unchanged, own_job, record_attempt_jobs,
  reject_delivery_jobs, accept_packet-Change,
}

-- The row of a job is written over by its changed row.
saved :
    (j k : TelemetryProcessingJob) (db db' : Db)
    → get_job k.job_id db ≡ some j
    → Advances j k
    → Untouched (save_job k db) db'
    → Change db db'
saved j k db db' found change same = moves j k found change same.0 same.1

enqueue_job-Change :
    (job : TelemetryProcessingJob) (message : Bytes) (actor : String) (now : Instant) (db : Db)
    → get_job job.job_id db ≡ some job
    → is_complete job.state ≡ false
    → Change db (enqueue_job job message actor now db).1
unfolding enqueue_job
enqueue_job-Change job message actor now db found unfinished =
    saved job (queued_job job message now) db _ found
      (record {
        packet = refl;
        most = refl;
        attempts = omega arith;
        final = λ h. cc (unfinished, h);
      })
      (refl, refl)

mark_by_state-Change :
    (s : ProcessingJobState) (job : TelemetryProcessingJob) (message : Bytes) (actor : String)
    (now : Instant) (db : Db)
    → get_job job.job_id db ≡ some job
    → job.state ≡ s
    → OnOk (λ q. Change db q.1) (mark_by_state s job message actor now db)
unfolding mark_by_state
mark_by_state-Change ProcessingJobState.queued job message actor now db found e =
    OnOk-bind (λ (q : Bool × Db). Change db q.1)
      (raise_if (not (codes_are message job.queue_message_id)) invalid_delivery_state)
      (λ _. ok (false, db)) λ u checked. unchanged db
mark_by_state-Change ProcessingJobState.pending_queue job message actor now db found e =
    enqueue_job-Change job message actor now db found (ap is_complete e)
mark_by_state-Change ProcessingJobState.retry_wait job message actor now db found e =
    enqueue_job-Change job message actor now db found (ap is_complete e)
mark_by_state-Change _ job message actor now db found e = tt

mark_job_queued-Change :
    (i : Uuid) (message : Bytes) (actor : String) (now : Instant) (db : Db)
    → OnOk (λ q. Change db q.1) (mark_job_queued i message actor now db)
unfolding mark_job_queued
mark_job_queued-Change i message actor now db =
    OnOk-bind (λ q. Change db q.1) (or_raise (get_job i db) processing_job_not_found) _
      λ job found.
        mark_by_state-Change job.state job message actor now db
          (own_job i job db (or_raise-eq-ok _ _ found)) refl

claimable_open :
    (job : TelemetryProcessingJob) (now : Instant)
    → is_claimable job now ≡ true
    → is_complete job.state ≡ false
claimable_open job now h = ground arith

claim_work-Change :
    (job : TelemetryProcessingJob) (worker : String) (lease : ℕ) (now : Instant) (db : Db)
    → get_job job.job_id db ≡ some job
    → is_complete job.state ≡ false
    → OnOk (λ q. Change db q.1) (claim_work job worker lease now db)
unfolding claim_work
claim_work-Change job worker lease now db found unfinished =
    OnOk-bind (λ q. Change db q.1) (or_raise (get_packet job.packet_id db) storage_error) _
      λ p there.
        OnOk-bind (λ q. Change db q.1) (or_raise (get_receipt p.source_receipt_id db) storage_error)
          _
          λ r present.
            saved job (claimed_job job worker lease now) db _ found
              (record {
                packet = refl;
                most = refl;
                attempts = omega arith;
                final = λ h. cc (unfinished, h);
              })
              (refl, refl)

settle-Advances :
    (job : TelemetryProcessingJob) (existing : ProcessedTelemetry) (now : Instant)
    → Advances job (settle job existing now)
settle-Advances job existing now = record {
  packet = refl;
  most = refl;
  attempts = omega arith;
  final = λ h. refl;
}

claim_or_settle-Change :
    (o : Option ProcessedTelemetry) (job : TelemetryProcessingJob) (worker : String) (lease : ℕ)
    (now : Instant) (db : Db)
    → get_job job.job_id db ≡ some job
    → OnOk (λ q. Change db q.1) (claim_or_settle o job worker lease now db)
unfolding claim_or_settle
claim_or_settle-Change (some existing) job worker lease now db found =
    if_elim (λ (x : Db). Change db x) (is_complete job.state) db
      (save_job (settle job existing now) db) (unchanged db)
      (saved job (settle job existing now) db _ found (settle-Advances job existing now)
        (refl, refl))
claim_or_settle-Change none job worker lease now db found =
    elim (Bool-cases (is_claimable job now)) [
      | inl e ↦ rw e (claim_work-Change job worker lease now db found (claimable_open job now e))
      | inr e ↦ rw e (unchanged db)
    ]

claim-Change :
    (i : Uuid) (worker : String) (lease : ℕ) (now : Instant) (db : Db)
    → OnOk (λ q. Change db q.1) (claim_processing_job i worker lease now db)
unfolding claim_processing_job
claim-Change i worker lease now db =
    OnOk-bind (λ q. Change db q.1) (raise_if (str_eq worker "") value_error) _
      λ u named.
        OnOk-bind (λ q. Change db q.1) (raise_if (lease == 0) value_error) _
          λ w positive.
            OnOk-bind (λ q. Change db q.1) (or_raise (get_job i db) processing_job_not_found) _
              λ job found.
                claim_or_settle-Change (get_processed job.packet_id db) job worker lease now db
                  (own_job i job db (or_raise-eq-ok _ _ found))

insert_processed-Untouched :
    (p : ProcessedTelemetry) (db : Db) → OnOk (λ db'. Untouched db db') (insert_processed p db)
insert_processed-Untouched p db = ground arith

store_result-Change :
    (job : TelemetryProcessingJob) (v : ProcessingResultValues) (worker : String) (at : Instant)
    (db : Db)
    → get_job job.job_id db ≡ some job
    → OnOk (λ q. Change db q.1) (store_result job v worker at db)
unfolding store_result
store_result-Change job v worker at db found =
    OnOk-bind (λ q. Change db q.1) (raise_if (not (is_processing job.state)) invalid_delivery_state)
      _
      λ u running.
        OnOk-bind (λ q. Change db q.1)
          (raise_if (not (text_is worker job.claimed_by)) invalid_delivery_state) _
          λ w owned.
            OnOk-bind (λ q. Change db q.1) (insert_processed (new_result job v at) db) _
              λ db₁ e₁.
                let (jobs, packets) =
                  OnOk-apply (λ x. Untouched db x) _
                    (insert_processed-Untouched (new_result job v at) db) e₁ in
                moves job (completed_job job at) found
                  (record { packet = refl; most = refl; attempts = omega arith; final = λ h. refl })
                  (ap (λ js. (save_job (completed_job job at) (record db { jobs = js })).jobs) jobs)
                  packets

complete_or_replay-Change :
    (o : Option ProcessedTelemetry) (job : TelemetryProcessingJob) (v : ProcessingResultValues)
    (worker : String) (at now : Instant) (db : Db)
    → get_job job.job_id db ≡ some job
    → OnOk (λ q. Change db q.1) (complete_or_replay o job v worker at now db)
unfolding complete_or_replay
complete_or_replay-Change none job v worker at now db found =
    store_result-Change job v worker at db found
complete_or_replay-Change (some existing) job v worker at now db found =
    OnOk-bind (λ (q : ProcessedTelemetry × Db). Change db q.1)
      (raise_if (not (same_processing_result existing.result v)) processing_result_conflict)
      (λ _. ok (existing, save_job (settle job existing now) db))
      λ u same.
        saved job (settle job existing now) db _ found (settle-Advances job existing now)
          (refl, refl)

complete-Change :
    (i : Uuid) (v : ProcessingResultValues) (worker : String) (at now : Instant) (db : Db)
    → OnOk (λ q. Change db q.1) (complete_processing_job i v worker at now db)
unfolding complete_processing_job
complete-Change i v worker at now db =
    OnOk-bind (λ q. Change db q.1) (or_raise (get_job i db) processing_job_not_found) _
      λ job found.
        complete_or_replay-Change (get_processed job.packet_id db) job v worker at now db
          (own_job i job db (or_raise-eq-ok _ _ found))

save_failure-Change :
    (j k : TelemetryProcessingJob) (event outcome worker reason : String) (now : Instant) (db : Db)
    → get_job k.job_id db ≡ some j
    → Advances j k
    → Change db (save_failure k event outcome worker reason now db).1
unfolding save_failure
save_failure-Change j k event outcome worker reason now db found change =
    moves j k found change refl refl

fail_by_state-Change :
    (s : ProcessingJobState) (job : TelemetryProcessingJob) (worker reason : String)
    (temporary : Bool) (base : ℕ) (now : Instant) (db : Db)
    → get_job job.job_id db ≡ some job
    → job.state ≡ s
    → OnOk (λ q. Change db q.1) (fail_by_state s job worker reason temporary base now db)
unfolding fail_by_state
fail_by_state-Change ProcessingJobState.failed job worker reason temporary base now db found e =
    unchanged db
fail_by_state-Change ProcessingJobState.processing job worker reason temporary base now db found e =
    OnOk-bind (λ (q : ProcessingFailureResult × Db). Change db q.1)
      (raise_if (not (text_is worker job.claimed_by)) invalid_delivery_state) _
      λ u owned.
        if_elim (λ (q : ProcessingFailureResult × Db). Change db q.1)
          (not temporary || is_exhausted job)
          (save_failure (given_up_job job reason now) "telemetry.processing.failed" "FAILED" worker
            reason now db)
          (save_failure (waiting_job job reason base now) "telemetry.processing.retry_scheduled"
            "RETRY_WAIT" worker reason now db)
          (save_failure-Change job (given_up_job job reason now) _ _ _ _ _ db found (record {
            packet = refl;
            most = refl;
            attempts = omega arith;
            final = λ h. cc (ap is_complete e, h);
          }))
          (save_failure-Change job (waiting_job job reason base now) _ _ _ _ _ db found (record {
            packet = refl;
            most = refl;
            attempts = omega arith;
            final = λ h. cc (ap is_complete e, h);
          }))
fail_by_state-Change _ job worker reason temporary base now db found e = tt

fail-Change :
    (i : Uuid) (worker reason : String) (temporary : Bool) (base : ℕ) (now : Instant) (db : Db)
    → OnOk (λ q. Change db q.1) (fail_processing_attempt i worker reason temporary base now db)
unfolding fail_processing_attempt
fail-Change i worker reason temporary base now db =
    OnOk-bind (λ q. Change db q.1) (raise_if (base == 0) value_error) _
      λ u positive.
        OnOk-bind (λ q. Change db q.1) (or_raise (get_job i db) processing_job_not_found) _
          λ job found.
            fail_by_state-Change job.state job worker reason temporary base now db
              (own_job i job db (or_raise-eq-ok _ _ found)) refl

pub Step-Change : (db db' : Db) → Step db db' → Change db db'
Step-Change db db' (records d fresh now r e) =
    idle (OnOk-apply (λ q. Untouched db q.1) _ (record_attempt_jobs d fresh now db) e)
Step-Change db db' (rejects i reason parsed actor now r e) =
    idle
      (OnOk-apply (λ q. Untouched db q.1) _ (reject_delivery_jobs i reason parsed actor now db) e)
Step-Change db db' (accepts i v job most actor now r e) =
    OnOk-apply (λ q. Change db q.1) _ (accept_packet-Change i v job most actor now db) e
Step-Change db db' (marks i message actor now r e) =
    OnOk-apply (λ q. Change db q.1) _ (mark_job_queued-Change i message actor now db) e
Step-Change db db' (claims i worker lease now r e) =
    OnOk-apply (λ q. Change db q.1) _ (claim-Change i worker lease now db) e
Step-Change db db' (completes i v worker at now r e) =
    OnOk-apply (λ q. Change db q.1) _ (complete-Change i v worker at now db) e
Step-Change db db' (fails i worker reason temporary base now r e) =
    OnOk-apply (λ q. Change db q.1) _ (fail-Change i worker reason temporary base now db) e
Step-Change db db' (audits event e) = idle (ap (λ x. x.jobs) e, ap (λ x. x.packets) e)
