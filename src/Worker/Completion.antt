-- ===== src/Worker/Completion.antt =====
-- One message of a job that is ready, from the queue to the stored result.
use cislunar_ground_platform.Base.{
  ◌≤◌, true, false, none, some, String, str_eq, str_eq_iff, ok, Ensures, Ensures-ok, OnOk-apply,
  ◌≡◌, refl, sym, ap, ◌∙◌, subst, arith, ◌==◌,
}
use cislunar_ground_platform.Std.Datetime.{utc}
use cislunar_ground_platform.Telemetry.Codec.{TelemetryFrame, decode_telemetry}
use cislunar_ground_platform.Telemetry.Health.{HealthAssessment, assess_health}
use cislunar_ground_platform.Telemetry.Queue.Messages.{QueueMessage, to_json_bytes}
use cislunar_ground_platform.Telemetry.Queue.Lists.{Redis, ack}
use cislunar_ground_platform.Telemetry.Queue.Transfers.{count}
use cislunar_ground_platform.Telemetry.Queue.Acknowledge.{Acknowledged, ack-Acknowledged}
use cislunar_ground_platform.Telemetry.Storage.Records.{
  Uuid, Instant, ProcessingJobState, TelemetryProcessingJob, TelemetryWorkItem,
  ProcessingResultValues, ProcessedTelemetry, LogicalTelemetryPacket, TelemetryDeliveryReceipt,
}
use cislunar_ground_platform.Telemetry.Storage.Tables.{
  Db, find, get_job, get_processed, get_packet, get_receipt, processed_is,
}
use cislunar_ground_platform.Telemetry.Storage.Tables.Rows.{row-key}
use cislunar_ground_platform.Telemetry.Storage.Jobs.{
  text_is, is_claimable, claimed_job, packet_values, work_item, claim_processing_job,
}
use cislunar_ground_platform.Telemetry.Storage.Jobs.Lifecycle.{
  Claimed, claim-Claimed, claim_processing_job-work,
}
use cislunar_ground_platform.Telemetry.Storage.Jobs.Results.{Completed, complete-Completed}
use cislunar_ground_platform.Telemetry.Storage.Completion.{
  store_result, new_result, complete_or_replay, complete_processing_job, is_processing,
}
use cislunar_ground_platform.Std.Uuid.{uuid_of}
use cislunar_ground_platform.Telemetry.World.{World}
use cislunar_ground_platform.Worker.{
  WorkerError, Loop, continues, stored_values, result_of, evaluate, handle_message, after_claim,
  after_completion, after_evaluation,
}
use cislunar_ground_platform.Worker.Evaluation.{evaluate-exact}

-- No result is stored for the packet or for the job.
abbrev pub Unprocessed : TelemetryProcessingJob → Db → Type 0
Unprocessed job db =
    (get_processed job.packet_id db ≡ none)
    × (find (λ s. s.processing_job_id == job.job_id) db.processed ≡ none)

store_result-returns :
    (job : TelemetryProcessingJob) (v : ProcessingResultValues) (worker : String) (at : Instant)
    (db : Db)
    → job.state ≡ ProcessingJobState.processing
    → text_is worker job.claimed_by ≡ true
    → Unprocessed job db
    → Ensures (λ q. q.0 ≡ new_result job v at) (store_result job v worker at db)
unfolding store_result
store_result-returns job v worker at db running owned new =
    let processing_test : is_processing job.state ≡ true = ap is_processing running in
    rw (processing_test, owned, new.0, new.1) refl

complete-returns :
    (i : Uuid) (job : TelemetryProcessingJob) (v : ProcessingResultValues) (worker : String)
    (at : Instant) (db : Db)
    → get_job i db ≡ some job
    → job.state ≡ ProcessingJobState.processing
    → text_is worker job.claimed_by ≡ true
    → Unprocessed job db
    → Ensures (λ q. q.0 ≡ new_result job v at) (complete_processing_job i v worker at at db)
unfolding complete_processing_job complete_or_replay
complete-returns i job v worker at db found running owned new =
    rw (found, new.0) (store_result-returns job v worker at db running owned new)

-- A message is handled to its end: the loop goes on, one entry of the message has left the processing
-- list and nothing else in Redis has moved, the job has no marker, and the database holds the result
-- of the frame for the job.
abbrev pub Handles : Uuid → TelemetryFrame → Instant → QueueMessage → World → Loop → Type 0
Handles i f received message w loop =
    (a : HealthAssessment) × (stored : ProcessedTelemetry) × (db : Db) × (redis : Redis)
    × (assess_health f (utc received) ≡ ok a)
    × (loop ≡ continues (record { redis = redis; db = db }))
    × Acknowledged message w.redis redis
    × Completed i (result_of f a) stored db

finished :
    (describe : WorkerError → String) (i : Uuid) (worker : String) (message : QueueMessage)
    (now : Instant) (job : TelemetryProcessingJob) (item : TelemetryWorkItem) (f : TelemetryFrame)
    (w : World) (db : Db)
    → get_job i db ≡ some job
    → item.job_id ≡ i
    → job.state ≡ ProcessingJobState.processing
    → text_is worker job.claimed_by ≡ true
    → Unprocessed job db
    → decode_telemetry item.raw_body (utc item.received_at) ≡ ok f
    → item.values ≡ stored_values f
    → 1 ≤ count (to_json_bytes message) w.redis.processing
    → Handles i f item.received_at message w
        (after_evaluation describe (evaluate item) item worker message now (record w { db = db }))
finished describe i worker message now job item f w db found same running owned new decoded values
      held =
    let (a, assessed, evaluated) = (evaluate-exact item f decoded).0 values in
    let (q, completed, result) =
      Ensures-ok _ _
        (complete-returns i job (result_of f a) worker now db found running owned new) in
    let returned : complete_processing_job item.job_id (result_of f a) worker now now db ≡ ok q =
      subst (λ k. complete_processing_job k (result_of f a) worker now now db ≡ ok q) (sym same)
        completed in
    (
      a,
      q.0,
      q.1,
      (ack message w.redis).1,
      assessed,
      ap (λ r. after_evaluation describe r item worker message now (record w { db = db })) evaluated
          ∙ (unfold after_evaluation after_completion in
              ap (λ r. after_completion describe r item worker message now (record w { db = db }))
                returned),
      (ack-Acknowledged message w.redis held).1,
      OnOk-apply (λ p. Completed i (result_of f a) p.0 p.1) _
          (complete-Completed i (result_of f a) worker now now db) completed,
    )

-- A message whose entry is in the processing list, and whose job is ready with its packet, its
-- receipt and bytes that decode to the saved fields, is processed in one pass by any named worker:
-- the result of the decoded frame and its assessment is stored for the job, one entry of the message
-- leaves the processing list, nothing else in the lists moves, the job's marker is gone, and the loop
-- goes on.
pub handle_message-Handles :
    (describe : WorkerError → String) (worker : String) (message : QueueMessage) (now : Instant)
    (job : TelemetryProcessingJob) (p : LogicalTelemetryPacket) (r : TelemetryDeliveryReceipt)
    (f : TelemetryFrame) (w : World)
    → str_eq worker "" ≡ false
    → get_job (uuid_of 0 message.job_id) w.db ≡ some job
    → is_claimable job now ≡ true
    → Unprocessed job w.db
    → get_packet job.packet_id w.db ≡ some p
    → get_receipt p.source_receipt_id w.db ≡ some r
    → decode_telemetry r.raw_body (utc r.received_at) ≡ ok f
    → packet_values p ≡ stored_values f
    → 1 ≤ count (to_json_bytes message) w.redis.processing
    → Handles
        (uuid_of 0 message.job_id)
        f
        r.received_at
        message
        w
        (handle_message describe worker message now w)
unfolding handle_message
handle_message-Handles describe worker message now job p r f w named found ready new packet receipt
      decoded values held =
    let i = uuid_of 0 message.job_id in
    let item = work_item (claimed_job job worker 60 now) p r in
    let (q, returned, given) = Ensures-ok _ _ (
      claim_processing_job-work i worker 60 now job p r w.db named (λ h. omega (arith, h)) found
        new.0 packet receipt ready) in
    let claimed : claim_processing_job i worker 60 now w.db ≡ ok (some item, q.1) =
      returned ∙ ap (λ x. ok (x, q.1)) given in
    let c : Claimed i worker 60 now item w.db q.1 =
      claim-Claimed i worker 60 now item w.db q.1 claimed in
    let same_job : c.job ≡ job = cc (c.found, found) in
    let saved : get_job i q.1 ≡ some (claimed_job job worker 60 now) =
      subst (λ j. get_job i q.1 ≡ some (claimed_job j worker 60 now)) same_job c.saved in
    let unprocessed : Unprocessed (claimed_job job worker 60 now) q.1 =
      subst
        (λ rows.
          (find (processed_is job.packet_id) rows ≡ none)
          × (find (λ s. s.processing_job_id == job.job_id) rows ≡ none))
        (sym c.processed) new in
    subst (λ m. Handles i f r.received_at message w (after_claim describe m worker message now w))
      (sym claimed)
      (unfold after_claim in
        finished describe i worker message now (claimed_job job worker 60 now) item f w q.1 saved
          (row-key (λ j. j.job_id) i job w.db.jobs found) refl ((str_eq_iff worker worker).1 refl)
          unprocessed decoded values held)
