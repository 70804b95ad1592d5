-- ===== src/Telemetry/Storage/Examples/Work.antt =====
-- A job that is claimed, completed or failed.
use cislunar_ground_platform.Base.{
  ◌≤◌, none, some, [], ◌∷◌, true, false, ok, err, Ensures, ◌≡◌, ◌≢◌, refl, arith, bytes_eq,
}
use cislunar_ground_platform.Base.Int.{pos}
use cislunar_ground_platform.Telemetry.Storage.Records.{
  TelemetryDeliveryReceipt, LogicalTelemetryPacket, TelemetryProcessingJob, ProcessingResultValues,
  TelemetryWorkItem, ProcessedTelemetry, SequenceDisposition, HealthClassification, Value,
  processing_result_conflict,
}
use cislunar_ground_platform.Telemetry.Storage.Tables.{
  Db, find, replace, get_job, get_processed, get_packet, get_receipt,
}
use cislunar_ground_platform.Telemetry.Storage.Deliveries.{new_receipt}
use cislunar_ground_platform.Telemetry.Storage.Acceptance.{new_packet, new_job}
use cislunar_ground_platform.Telemetry.Storage.Jobs.{
  claimed_job, queued_job, job_event, work_item, claim_processing_job,
}
use cislunar_ground_platform.Telemetry.Storage.Jobs.Lifecycle.{claim-excludes}
use cislunar_ground_platform.Telemetry.Storage.Jobs.Handout.{
  IsReady, is_queued, HandsOut, Settles, claim_processing_job-exact,
}
use cislunar_ground_platform.Telemetry.Storage.Jobs.Retries.{
  Fails, backoff_seconds-bounds, fail_processing_attempt-exact,
}
use cislunar_ground_platform.Telemetry.Storage.Jobs.Results.{complete_processing_job-idempotent}
use cislunar_ground_platform.Telemetry.Storage.Completion.{
  backoff_seconds, completed_job, new_result, complete_processing_job, fail_processing_attempt,
}
use cislunar_ground_platform.Telemetry.Storage.History.{here, next, claims, completes}
use cislunar_ground_platform.Telemetry.Storage.History.Invariants.{KeepsJobs, Run-KeepsJobs}
use cislunar_ground_platform.Telemetry.Storage.Examples.{delivery, values}

abbrev receipt : TelemetryDeliveryReceipt
receipt = new_receipt delivery 1 100 none

abbrev packet : LogicalTelemetryPacket
packet = record (new_packet receipt values SequenceDisposition.first (pos 3) 110) {
  packet_id = 80 ∷ [];
}

abbrev job : TelemetryProcessingJob
job = queued_job (new_job 50 (80 ∷ []) 3 110) (109 ∷ []) 120

abbrev queued_db : Db
queued_db = record {
  receipts = receipt ∷ [];
  identities = [];
  packets = packet ∷ [];
  sequences = [];
  jobs = job ∷ [];
  processed = [];
  audit = [];
}

abbrev claimed : TelemetryProcessingJob
claimed = claimed_job job "w1" 30 130

abbrev claimed_db : Db
claimed_db = record queued_db {
  jobs = claimed ∷ [];
  audit =
      job_event 130 "payload-worker" "telemetry.processing.claimed" "w1" "PROCESSING" none (some 1)
        (80 ∷ []) 50 (("attempt_count", Value.integer (pos 1)) ∷ [])
      ∷ [];
}

was_claimed :
    claim_processing_job 50 "w1" 30 130 queued_db
    ≡ ok (some (work_item claimed packet receipt), claimed_db)
unfolding claim_processing_job find replace bytes_eq
was_claimed = refl

claim-excludes_example : claim_processing_job 50 "w2" 60 30000129 claimed_db ≡ ok (none, claimed_db)
claim-excludes_example =
    claim-excludes 50 "w1" "w2" 30 60 130 30000129 (work_item claimed packet receipt) queued_db
      claimed_db was_claimed refl (λ h. omega (arith, h)) (omega arith)

job_found : get_job 50 queued_db ≡ some job
unfolding find
job_found = refl

not_processed : get_processed job.packet_id queued_db ≡ none
unfolding find
not_processed = refl

packet_found : get_packet job.packet_id queued_db ≡ some packet
unfolding find bytes_eq
packet_found = refl

receipt_found : get_receipt packet.source_receipt_id queued_db ≡ some receipt
unfolding find
receipt_found = refl

claim_processing_job-exact_example :
    (get_processed job.packet_id queued_db ≡ none
      → IsReady job 130
      → Ensures
          (λ q.
            (item : TelemetryWorkItem) × (q.0 ≡ some item)
            × HandsOut 50 job packet receipt "w1" 30 130 queued_db item q.1)
          (claim_processing_job 50 "w1" 30 130 queued_db))
    × (get_processed job.packet_id queued_db ≡ none
        → ¬ IsReady job 130
        → claim_processing_job 50 "w1" 30 130 queued_db ≡ ok (none, queued_db))
    × ((existing : ProcessedTelemetry)
        → get_processed job.packet_id queued_db ≡ some existing
        → Ensures (Settles 50 queued_db) (claim_processing_job 50 "w1" 30 130 queued_db))
claim_processing_job-exact_example =
    claim_processing_job-exact 50 "w1" 30 130 job packet receipt queued_db refl
      (λ h. omega (arith, h)) job_found packet_found receipt_found

ready : IsReady job 130
ready = is_queued refl

abbrev result : ProcessingResultValues
result = record {
  temperature_c = pos 2150;
  voltage_v = pos 28000;
  operating_mode = "SCIENCE";
  fault_names = [];
  classification = HealthClassification.nominal;
  is_stale = false;
  processor_version = "telemetry-v1";
}

abbrev other_result : ProcessingResultValues
other_result = record result { is_stale = true }

abbrev completed_db : Db
completed_db = record claimed_db {
  jobs = completed_job claimed 140 ∷ [];
  processed = new_result claimed result 140 ∷ [];
  audit =
      job_event 140 "payload-worker" "telemetry.processing.completed" "w1" "COMPLETE" none none
        (80 ∷ []) 50
        (("classification", Value.text "NOMINAL") ∷ ("is_stale", Value.flag false) ∷ [])
      ∷ claimed_db.audit;
}

was_completed :
    complete_processing_job 50 result "w1" 140 140 claimed_db
    ≡ ok (new_result claimed result 140, completed_db)
unfolding complete_processing_job find replace
was_completed = refl

complete_processing_job-idempotent_example :
    (other_result ≡ result
      → Ensures
          (λ q. (q.0 ≡ new_result claimed result 140) × (q.1.processed ≡ completed_db.processed))
          (complete_processing_job 50 other_result "w2" 150 150 completed_db))
    × (other_result ≢ result
        → complete_processing_job 50 other_result "w2" 150 150 completed_db
          ≡ err processing_result_conflict)
complete_processing_job-idempotent_example =
    complete_processing_job-idempotent 50 result other_result "w1" "w2" 140 140 150 150
      (new_result claimed result 140) claimed_db completed_db was_completed

claimed_found : get_job 50 claimed_db ≡ some claimed
unfolding find
claimed_found = refl

fail_processing_attempt-exact_example :
    Ensures
      (Fails 50 claimed true 5 140)
      (fail_processing_attempt 50 "w1" "DATABASE_TEMPORARY_ERROR" true 5 140 claimed_db)
fail_processing_attempt-exact_example =
    fail_processing_attempt-exact 50 claimed "w1" "DATABASE_TEMPORARY_ERROR" true 5 140 claimed_db
      (λ h. omega (arith, h)) claimed_found refl refl

backoff_seconds-bounds_example :
    (1 ≤ backoff_seconds 5 2)
    × (backoff_seconds 5 2 ≤ backoff_seconds 5 9)
    × (backoff_seconds 5 9 ≤ 300)
backoff_seconds-bounds_example = backoff_seconds-bounds 5 2 9 (omega arith) (omega arith)

Run-KeepsJobs_example : KeepsJobs queued_db completed_db
Run-KeepsJobs_example = Run-KeepsJobs queued_db completed_db (
    next (next here (claims 50 "w1" 30 130 (some (work_item claimed packet receipt)) was_claimed))
      (completes 50 result "w1" 140 140 (new_result claimed result 140) was_completed))
