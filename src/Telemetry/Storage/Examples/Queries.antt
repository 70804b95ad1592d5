-- ===== src/Telemetry/Storage/Examples/Queries.antt =====
-- The oldest of two jobs that want the queue.
use cislunar_ground_platform.Base.{◌≤◌, List, [], ◌∷◌, true, ok, All, map, length, ◌≡◌, arith, ◌⊎◌}
use cislunar_ground_platform.Telemetry.Storage.Records.{TelemetryProcessingJob, ProcessingJobState}
use cislunar_ground_platform.Telemetry.Storage.Tables.{Db}
use cislunar_ground_platform.Telemetry.Storage.Acceptance.{new_job}
use cislunar_ground_platform.Telemetry.Storage.Queries.{wants_queue, pending_queue_jobs}
use cislunar_ground_platform.Telemetry.Storage.Queries.Oldest.{
  Among, Ordered, pending_queue_jobs-oldest,
}

abbrev three_jobs : Db
three_jobs = record {
  receipts = [];
  identities = [];
  packets = [];
  sequences = [];
  jobs =
      new_job 1 (80 ∷ []) 3 120
      ∷ new_job 2 (81 ∷ []) 3 110
      ∷ record (new_job 3 (82 ∷ []) 3 100) { state = ProcessingJobState.complete }
      ∷ [];
  processed = [];
  audit = [];
}

pending_queue_jobs-oldest_example :
    (jobs : List TelemetryProcessingJob) × (pending_queue_jobs 1 200 three_jobs
      ≡ ok (map (λ job. job.job_id) jobs))
    × (length jobs ≤ 1)
    × Ordered (λ job. job.created_at) jobs
    × All (λ job. Among job three_jobs.jobs) jobs
    × All (λ job. wants_queue 200 job ≡ true) jobs
    × ((job : TelemetryProcessingJob)
        → Among job three_jobs.jobs
        → wants_queue 200 job ≡ true
        → Among job jobs ⊎ All (λ a. a.created_at ≤ job.created_at) jobs)
pending_queue_jobs-oldest_example =
    pending_queue_jobs-oldest 1 200 three_jobs (omega arith) (omega arith)
