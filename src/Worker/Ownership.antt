-- ===== src/Worker/Ownership.antt =====
-- A worker whose lease ran out while it was working.
use cislunar_ground_platform.Base.{
  ℕ, Bool, true, false, not, Option, none, some, String, Result, ok, err, ◌≡◌, refl, ap, ◌∙◌,
}
use cislunar_ground_platform.Telemetry.Queue.Messages.{QueueMessage}
use cislunar_ground_platform.Telemetry.Storage.Records.{
  Instant, ProcessingJobState, TelemetryProcessingJob, TelemetryWorkItem, ProcessingResultValues,
  ProcessedTelemetry, invalid_delivery_state,
}
use cislunar_ground_platform.Telemetry.Storage.Tables.{Db, get_job, get_processed}
use cislunar_ground_platform.Telemetry.Storage.Jobs.{text_is}
use cislunar_ground_platform.Telemetry.Storage.Completion.{
  store_result, complete_or_replay, complete_processing_job, fail_by_state, fail_processing_attempt,
  is_processing,
}
use cislunar_ground_platform.Telemetry.World.{World}
use cislunar_ground_platform.Worker.{
  WorkerError, storage, is_value_error, stops, after_failure, record_failure, after_completion,
  after_evaluation,
}

fail_by_state_lost :
    (s : ProcessingJobState) (job : TelemetryProcessingJob) (worker reason : String)
    (temporary : Bool) (base : ℕ) (now : Instant) (db : Db)
    → s ≡ ProcessingJobState.processing
    → text_is worker job.claimed_by ≡ false
    → fail_by_state s job worker reason temporary base now db ≡ err invalid_delivery_state
unfolding fail_by_state
fail_by_state_lost ProcessingJobState.processing job worker reason temporary base now db e lost =
    rw lost refl
fail_by_state_lost _ job worker reason temporary base now db e lost = cc

record_failure_lost :
    (describe : WorkerError → String) (e : WorkerError) (work : TelemetryWorkItem) (worker : String)
    (message : QueueMessage) (now : Instant) (job : TelemetryProcessingJob) (w : World)
    → get_job work.job_id w.db ≡ some job
    → job.state ≡ ProcessingJobState.processing
    → text_is worker job.claimed_by ≡ false
    → record_failure describe e work worker message now w ≡ stops (storage invalid_delivery_state) w
unfolding record_failure
record_failure_lost describe e work worker message now job w found running lost =
    let failed : fail_processing_attempt work.job_id worker (describe e) (not (is_value_error e)) 1
          now w.db
        ≡ err invalid_delivery_state =
      unfold fail_processing_attempt in
      rw found (
        fail_by_state_lost job.state job worker (describe e) (not (is_value_error e)) 1 now w.db
          running lost) in
    ap (λ r. after_failure r message w) failed

store_result_lost :
    (o : Option ProcessedTelemetry) (s : ProcessingJobState) (job : TelemetryProcessingJob)
    (v : ProcessingResultValues) (worker : String) (now : Instant) (db : Db)
    → o ≡ none
    → job.state ≡ ProcessingJobState.processing
    → text_is worker job.claimed_by ≡ false
    → complete_or_replay o job v worker now now db ≡ err invalid_delivery_state
unfolding complete_or_replay store_result
store_result_lost none s job v worker now db e running lost =
    let processing_test : is_processing job.state ≡ true = ap is_processing running in
    rw (processing_test, lost) refl
store_result_lost (some existing) s job v worker now db e running lost = cc

-- When another worker holds the job by the time the evaluation is over, and no result is stored yet,
-- the exception of the completion or of the failure report leaves the loop and stops the worker,
-- whatever it has evaluated; the database and the queue are unchanged.
pub after_evaluation-lost :
    (describe : WorkerError → String) (outcome : Result WorkerError ProcessingResultValues)
    (work : TelemetryWorkItem) (worker : String) (message : QueueMessage) (now : Instant)
    (job : TelemetryProcessingJob) (w : World)
    → get_job work.job_id w.db ≡ some job
    → get_processed job.packet_id w.db ≡ none
    → job.state ≡ ProcessingJobState.processing
    → text_is worker job.claimed_by ≡ false
    → after_evaluation describe outcome work worker message now w
      ≡ stops (storage invalid_delivery_state) w
unfolding after_evaluation after_completion
after_evaluation-lost describe (err e) work worker message now job w found new running lost =
    record_failure_lost describe e work worker message now job w found running lost
after_evaluation-lost describe (ok result) work worker message now job w found new running lost =
    let refused : complete_processing_job work.job_id result worker now now w.db
        ≡ err invalid_delivery_state =
      unfold complete_processing_job in
      rw found (
        store_result_lost (get_processed job.packet_id w.db) job.state job result worker now w.db
          new running lost) in
    ap (λ r. after_completion describe r work worker message now w) refused
    ∙ record_failure_lost describe (storage invalid_delivery_state) work worker message now job w
        found running lost
