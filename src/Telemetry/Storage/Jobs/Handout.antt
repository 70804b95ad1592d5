-- ===== src/Telemetry/Storage/Jobs/Handout.antt =====
-- storage.py, `claim_processing_job`: which jobs are handed out, with which work, and what the claim
-- leaves in the job's row.
use cislunar_ground_platform.Base.{
  ℕ, ◌+◌, ◌*◌, ◌≤◌, true, false, Option, none, some, String, str_eq, ◌==◌, Bool, ok, Ensures, ◌≡◌,
  ◌≢◌, inl, inr, refl, arith, Bool-cases, if◌then◌else◌,
}
use cislunar_ground_platform.Telemetry.Storage.Records.{
  Uuid, Instant, ProcessingJobState, DecodedTelemetryValues, TelemetryProcessingJob,
  TelemetryWorkItem, LogicalTelemetryPacket, TelemetryDeliveryReceipt, ProcessedTelemetry,
}
use cislunar_ground_platform.Telemetry.Storage.Tables.{
  Db, get_job, get_packet, get_receipt, get_processed, save_job,
}
use cislunar_ground_platform.Telemetry.Storage.Jobs.{
  is_due, is_claimable, is_complete, claimed_job, settle, work_item, claim_work, claim_or_settle,
  claim_processing_job,
}
use cislunar_ground_platform.Telemetry.Storage.Jobs.Lifecycle.{get_job-save_job, claim_refused}

-- The job is queued, or its lease has run out, or the time of its retry has come.
pub data IsReady (job : TelemetryProcessingJob) (now : Instant) : Type 0 where
  is_queued : job.state ≡ ProcessingJobState.queued → IsReady job now
  lease_over :
      (expires : Instant)
      → job.state ≡ ProcessingJobState.processing
      → job.lease_expires_at ≡ some expires
      → expires ≤ now
      → IsReady job now
  retry_due :
      (due : Instant)
      → job.state ≡ ProcessingJobState.retry_wait
      → job.next_attempt_at ≡ some due
      → due ≤ now
      → IsReady job now

-- The fields of the packet that the worker compares with the frame.
pub record IsValuesOf (p : LogicalTelemetryPacket) (v : DecodedTelemetryValues) : Type 0 where
  pub protocol : v.protocol_version ≡ p.protocol_version
  pub payload : v.payload_id ≡ p.payload_id
  pub boot : v.boot_id ≡ p.boot_id
  pub sequence : v.sequence_number ≡ p.sequence_number
  pub timestamp : v.sample_timestamp_us ≡ p.sample_timestamp_us
  pub temperature : v.temperature_centi_c ≡ p.temperature_centi_c
  pub voltage : v.voltage_mv ≡ p.voltage_mv
  pub mode : v.operating_mode ≡ p.operating_mode
  pub faults : v.fault_flags ≡ p.fault_flags

-- The work item: the original bytes, the saved fields, and the count of this attempt.
pub record IsWork (job : TelemetryProcessingJob) (p : LogicalTelemetryPacket)
    (r : TelemetryDeliveryReceipt) (item : TelemetryWorkItem) : Type 0 where
  pub job_id : item.job_id ≡ job.job_id
  pub packet_id : item.packet_id ≡ p.packet_id
  pub raw : item.raw_body ≡ r.raw_body
  pub received : item.received_at ≡ r.received_at
  pub values : IsValuesOf p item.values
  pub attempt : item.attempt_count ≡ job.attempt_count + 1
  pub most : item.max_attempts ≡ job.max_attempts

-- The row of the job under the worker's lease.
pub record IsLeased (job : TelemetryProcessingJob) (worker : String) (lease : ℕ) (now : Instant)
    (row : TelemetryProcessingJob) : Type 0 where
  pub job_id : row.job_id ≡ job.job_id
  pub packet_id : row.packet_id ≡ job.packet_id
  pub state : row.state ≡ ProcessingJobState.processing
  pub owner : row.claimed_by ≡ some worker
  pub expires : row.lease_expires_at ≡ some (now + lease * 1000000)
  pub attempt : row.attempt_count ≡ job.attempt_count + 1
  pub most : row.max_attempts ≡ job.max_attempts

-- The claim hands out the work and leases the row; receipts, packets and results stay.
abbrev pub HandsOut :
    Uuid
    → TelemetryProcessingJob
    → LogicalTelemetryPacket
    → TelemetryDeliveryReceipt
    → String
    → ℕ
    → Instant
    → Db
    → TelemetryWorkItem
    → Db
    → Type 0
HandsOut i job p r worker lease now db item db' =
    IsWork job p r item
    × ((row : TelemetryProcessingJob) × (get_job i db' ≡ some row)
        × IsLeased job worker lease now row)
    × (db'.receipts ≡ db.receipts)
    × (db'.packets ≡ db.packets)
    × (db'.processed ≡ db.processed)

due_at :
    (o : Option Instant) (now : Instant)
    → is_due o now ≡ true
    → (t : Instant) × (o ≡ some t) × (t ≤ now)
due_at none now h = absurd cc
due_at (some t) now h = (t, refl, ground arith)

abbrev claimable_in : ProcessingJobState → TelemetryProcessingJob → Instant → Bool
claimable_in s job now = elim s [
  | ProcessingJobState.queued ↦ true
  | ProcessingJobState.processing ↦ is_due job.lease_expires_at now
  | ProcessingJobState.retry_wait ↦ is_due job.next_attempt_at now
  | _ ↦ false
]

ready_in :
    (s : ProcessingJobState) (job : TelemetryProcessingJob) (now : Instant)
    → job.state ≡ s
    → claimable_in s job now ≡ true
    → IsReady job now
ready_in ProcessingJobState.queued job now e h = is_queued e
ready_in ProcessingJobState.processing job now e h =
    let (t, at, past) = due_at job.lease_expires_at now h in lease_over t e at past
ready_in ProcessingJobState.retry_wait job now e h =
    let (t, at, past) = due_at job.next_attempt_at now h in retry_due t e at past
ready_in ProcessingJobState.pending_queue job now e h = absurd cc
ready_in ProcessingJobState.complete job now e h = absurd cc
ready_in ProcessingJobState.failed job now e h = absurd cc

is_claimable-IsReady :
    (job : TelemetryProcessingJob) (now : Instant) → is_claimable job now ≡ true → IsReady job now
is_claimable-IsReady job now h = ready_in job.state job now refl h

IsReady-is_claimable :
    (job : TelemetryProcessingJob) (now : Instant) → IsReady job now → is_claimable job now ≡ true
IsReady-is_claimable job now (is_queued s) = rw s refl
IsReady-is_claimable job now (lease_over t s e le) = rw (s, e) (ground arith)
IsReady-is_claimable job now (retry_due t s e le) = rw (s, e) (ground arith)

-- A job without a result that is ready.
handed_out :
    (i : Uuid) (o : Option ProcessedTelemetry) (job : TelemetryProcessingJob) (worker : String)
    (lease : ℕ) (now : Instant) (p : LogicalTelemetryPacket) (r : TelemetryDeliveryReceipt)
    (db : Db)
    → o ≡ none
    → get_job i db ≡ some job
    → get_packet job.packet_id db ≡ some p
    → get_receipt p.source_receipt_id db ≡ some r
    → is_claimable job now ≡ true
    → Ensures
        (λ q.
          (item : TelemetryWorkItem) × (q.0 ≡ some item)
          × HandsOut i job p r worker lease now db item q.1)
        (claim_or_settle o job worker lease now db)
unfolding claim_or_settle claim_work
handed_out i (some existing) job worker lease now p r db e found packet receipt h = cc
handed_out i none job worker lease now p r db e found packet receipt h =
    let claimed = claimed_job job worker lease now in
    let saved = get_job-save_job i job claimed db found refl in
    rw (h, packet, receipt)
      (
        work_item claimed p r,
        refl,
        (
          record {
            job_id = refl;
            packet_id = refl;
            raw = refl;
            received = refl;
            values = record {
              protocol = refl;
              payload = refl;
              boot = refl;
              sequence = refl;
              timestamp = refl;
              temperature = refl;
              voltage = refl;
              mode = refl;
              faults = refl;
            };
            attempt = refl;
            most = refl;
          },
          (
            claimed,
            saved,
            record {
              job_id = refl;
              packet_id = refl;
              state = refl;
              owner = refl;
              expires = refl;
              attempt = refl;
              most = refl;
            },
          ),
          refl,
          refl,
          refl,
        ),
      )

-- The row of a job whose result exists says that it is complete, and the results stay.
abbrev pub Settles : Uuid → Db → Option TelemetryWorkItem × Db → Type 0
Settles i db q =
    (q.0 ≡ none)
    × ((row : TelemetryProcessingJob) × (get_job i q.1 ≡ some row)
        × (row.state ≡ ProcessingJobState.complete))
    × (q.1.processed ≡ db.processed)

settled :
    (i : Uuid) (o : Option ProcessedTelemetry) (existing : ProcessedTelemetry)
    (job : TelemetryProcessingJob) (worker : String) (lease : ℕ) (now : Instant) (db : Db)
    → o ≡ some existing
    → get_job i db ≡ some job
    → Ensures (Settles i db) (claim_or_settle o job worker lease now db)
unfolding claim_or_settle
settled i none existing job worker lease now db e found = cc
settled i (some other) existing job worker lease now db e found = settled_in job.state refl
  where
    saved : Settles i db (none, save_job (settle job other now) db)
    saved = (
      refl,
      (settle job other now, get_job-save_job i job (settle job other now) db found refl, refl),
      refl,
    )

    settled_in :
        (s : ProcessingJobState)
        → job.state ≡ s
        → Settles i db (none, if is_complete s then db else save_job (settle job other now) db)
    settled_in ProcessingJobState.complete at = (refl, (job, found, at), refl)
    settled_in ProcessingJobState.pending_queue at = saved
    settled_in ProcessingJobState.queued at = saved
    settled_in ProcessingJobState.processing at = saved
    settled_in ProcessingJobState.retry_wait at = saved
    settled_in ProcessingJobState.failed at = saved

-- A claim by a named worker, for a lease of positive length, of a job with its packet and its receipt
-- in the database. If the job has no result, it is handed out exactly when it is queued, or its lease
-- has run out, or its retry is due: the work item carries the receipt's bytes and time of arrival, the
-- packet's fields and the count of this attempt, and the row is leased to the worker until the lease
-- ends; otherwise there is no item and no change. The limit on attempts is no part of the condition.
-- If the job has a result, there is no item, the row says that the job is complete, and no result is
-- changed.
pub claim_processing_job-exact :
    (i : Uuid) (worker : String) (lease : ℕ) (now : Instant) (job : TelemetryProcessingJob)
    (p : LogicalTelemetryPacket) (r : TelemetryDeliveryReceipt) (db : Db)
    → str_eq worker "" ≡ false
    → lease ≢ 0
    → get_job i db ≡ some job
    → get_packet job.packet_id db ≡ some p
    → get_receipt p.source_receipt_id db ≡ some r
    → (get_processed job.packet_id db ≡ none
        → IsReady job now
        → Ensures
            (λ q.
              (item : TelemetryWorkItem) × (q.0 ≡ some item)
              × HandsOut i job p r worker lease now db item q.1)
            (claim_processing_job i worker lease now db))
      × (get_processed job.packet_id db ≡ none
          → ¬ IsReady job now
          → claim_processing_job i worker lease now db ≡ ok (none, db))
      × ((existing : ProcessedTelemetry)
          → get_processed job.packet_id db ≡ some existing
          → Ensures (Settles i db) (claim_processing_job i worker lease now db))
claim_processing_job-exact i worker lease now job p r db named positive found packet receipt =
    let zero_test : (lease == 0) ≡ false = ground arith in
    (
      λ new ready.
          unfold claim_processing_job in
          rw (named, zero_test, found)
            (handed_out i (get_processed job.packet_id db) job worker lease now p r db new found
              packet receipt (IsReady-is_claimable job now ready)),
      λ new idle.
          let refused : is_claimable job now ≡ false = elim (Bool-cases (is_claimable job now)) [
            | inl e ↦ absurd (idle (is_claimable-IsReady job now e))
            | inr e ↦ e
          ] in
          claim_refused i job worker lease now db named positive found new refused,
      λ existing known.
          unfold claim_processing_job in
          rw (named, zero_test, found)
            (settled i (get_processed job.packet_id db) existing job worker lease now db known
              found),
    )
