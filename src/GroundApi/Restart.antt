-- ===== src/GroundApi/Restart.antt =====
-- services/ground_api.py: what a restart does to the jobs that wait for the queue.
use cislunar_ground_platform.Base.{
  All-weaken, length, ℕ, suc, ◌+◌, ◌≤◌, ◌<◌, ◌^◌, some, List, [], ◌∷◌, All, ok, ◌≡◌, refl, ap, ◌∙◌,
  if◌then◌else◌, arith,
}
use cislunar_ground_platform.Telemetry.Storage.Records.{Uuid}
use cislunar_ground_platform.Telemetry.Storage.Tables.{get_job}
use cislunar_ground_platform.Telemetry.Storage.Tables.Rows.{row-key}
use cislunar_ground_platform.Telemetry.Storage.Queries.{recoverable_queue_jobs}
use cislunar_ground_platform.Telemetry.World.{World}
use cislunar_ground_platform.GroundApi.Calls.{from_read, Env, Call}
use cislunar_ground_platform.GroundApi.Delivery.{queue_one}
use cislunar_ground_platform.GroundApi.Queueing.{Quiet, transaction-answered, query-answered}
use cislunar_ground_platform.GroundApi.Recovery.{recover_job, recover_jobs, recover_pending_jobs}
use cislunar_ground_platform.GroundApi.Marking.{
  Ready, IsQueued, Outcome, queue_one-Outcome, Ready-after, IsQueued-after,
}

module _ (round : ℕ → Env) (quiet : (n : ℕ) → Quiet (round n)) where
  recover_jobs-Queued :
      (n recovered : ℕ) (ids : List Uuid) (w : World)
      → All (λ i. (i < 16 ^ 32) × Ready i w) ids
      → (count : ℕ) × (v : World) × (recover_jobs round n recovered ids w ≡ (ok count, v))
        × All (λ i. IsQueued i v) ids
        × ((k : Uuid) → k < 16 ^ 32 → IsQueued k w → IsQueued k v)
        × (count ≤ recovered + length ids)
  unfolding recover_jobs recover_job
  recover_jobs-Queued n recovered [] w ready =
      (recovered, w, refl, tt, (λ k bound q. q), omega arith)
  recover_jobs-Queued n recovered (i ∷ ids) w ((bound, r), ready) =
      let own : r.job.job_id ≡ i = row-key (λ j. j.job_id) i r.job w.db.jobs r.found in
      let (added, u, run, outcome) = queue_one-Outcome (round n) (quiet n) i w r bound in
      let (count, v, rest, queued, keeps, fewer) =
        recover_jobs-Queued (suc n) (if added then recovered + 1 else recovered) ids u
          (All-weaken _ _ ids (λ k h. (h.0, Ready-after i k w u outcome h.0 h.1)) ready) in
      let first : recover_job (round n) (some r.job) w ≡ (ok added, u) =
        ap (λ j. queue_one (round n) j r.job.packet_id w) own ∙ run in
      (
        count,
        v,
        rw (query-answered (round n) (quiet n) Call.reads_job (get_job i) w, r.found)
            (rw first rest),
        (keeps i bound (unfold Outcome in outcome.0), queued),
        (λ k hk q. keeps k hk (IsQueued-after i k w u outcome hk q)),
        ground arith,
      )

-- Liveness of a restart: if every call is answered and no other service works in between, and each
-- job that the query for recoverable jobs names can be queued, and Redis has no marker under its
-- identifier or its marker with its entry, then the service starts, each of these jobs is queued
-- afterwards, its entry stands in the pending or the processing list and its marker is set, and the
-- number returned is at most theirs.
pub recover_pending_jobs-Queued :
    (round : ℕ → Env) (env : Env) (limit : ℕ) (w : World) (ids : List Uuid)
    → Quiet env
    → ((n : ℕ) → Quiet (round n))
    → recoverable_queue_jobs limit env.now w.db ≡ ok ids
    → All (λ i. (i < 16 ^ 32) × Ready i w) ids
    → (count : ℕ) × (v : World) × (recover_pending_jobs round env limit w ≡ (ok count, v))
      × All (λ i. IsQueued i v) ids
      × (count ≤ length ids)
unfolding recover_pending_jobs
recover_pending_jobs-Queued round env limit w ids quiet quiets listed ready =
    let (count, v, run, queued, keeps, few) = recover_jobs-Queued round quiets 0 0 ids w ready in
    let read =
      transaction-answered env quiet Call.lists_jobs
        (λ db. from_read (recoverable_queue_jobs limit env.now db) db) w ids w.db
        (rw listed refl) in
    (count, v, rw read run, queued, omega arith)
