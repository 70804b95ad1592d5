-- ===== src/GroundApi/Recovery.antt =====
-- services/ground_api.py: `_recover_pending_jobs`, which the service runs when it starts.
use cislunar_ground_platform.Base.{
  ℕ, suc, ◌+◌, Bool, false, Option, none, some, List, [], ◌∷◌, if◌then◌else◌,
}
use cislunar_ground_platform.Telemetry.Storage.Records.{Uuid, TelemetryProcessingJob}
use cislunar_ground_platform.Telemetry.Storage.Tables.{get_job}
use cislunar_ground_platform.Telemetry.Storage.Queries.{recoverable_queue_jobs}
use cislunar_ground_platform.GroundApi.Calls.{
  from_read, Call, Env, Api, ◌>>=◌, return, transaction, query,
}
use cislunar_ground_platform.GroundApi.Delivery.{queue_one}

-- A job that is gone meanwhile is left out.
unfoldable pub recover_job : Env → Option TelemetryProcessingJob → Api Bool
unfolding queue_one
recover_job env none = return false
recover_job env (some job) = queue_one env job.job_id job.packet_id

-- Each job has its own surroundings.
module _ (round : ℕ → Env) where
  unfoldable pub recover_jobs : ℕ → ℕ → List Uuid → Api ℕ
  unfolding query recover_job
  recover_jobs n recovered [] = return recovered
  recover_jobs n recovered (job_id ∷ job_ids) = do
    job ← query (round n) Call.reads_job (get_job job_id)
    queued ← recover_job (round n) job
    recover_jobs (suc n) (if queued then recovered + 1 else recovered) job_ids

  -- `_recover_pending_jobs`
  unfoldable pub recover_pending_jobs : Env → ℕ → Api ℕ
  unfolding transaction recoverable_queue_jobs recover_jobs
  recover_pending_jobs env limit = do
    job_ids ←
        transaction env Call.lists_jobs
          (λ db. from_read (recoverable_queue_jobs limit env.now db) db)
    recover_jobs 0 0 job_ids
