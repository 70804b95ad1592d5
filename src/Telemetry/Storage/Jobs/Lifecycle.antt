-- ===== src/Telemetry/Storage/Jobs/Lifecycle.antt =====
-- Claims of processing jobs: when work is handed out, and what a lease does.
use cislunar_ground_platform.Base.{
  ℕ, ◌+◌, ◌*◌, ◌<◌, true, false, Option, none, some, String, str_eq, ◌==◌, ok, >>=-eq-ok, or_raise,
  or_raise-eq-ok, raise_if, Ensures, ◌≡◌, refl, sym, ap, ◌∙◌, subst, arith, inl, inr, Bool-cases,
  ◌≢◌,
}
use cislunar_ground_platform.Telemetry.Storage.Records.{
  Uuid, Instant, value_error, processing_job_not_found, TelemetryProcessingJob, TelemetryWorkItem,
  LogicalTelemetryPacket, TelemetryDeliveryReceipt, ProcessedTelemetry,
}
use cislunar_ground_platform.Telemetry.Storage.Tables.{
  Db, find, get_job, get_packet, get_receipt, get_processed, save_job, job_is, processed_is,
}
use cislunar_ground_platform.Telemetry.Storage.Tables.Rows.{row-put_self, row-key}
use cislunar_ground_platform.Telemetry.Storage.Jobs.{
  is_claimable, claimed_job, claim_work, claim_or_settle, claim_processing_job, work_item,
}

abbrev key : TelemetryProcessingJob → ℕ
key j = j.job_id

-- A saved job is found under its identifier.
pub get_job-save_job :
    (i : Uuid) (j k : TelemetryProcessingJob) (db : Db)
    → get_job i db ≡ some j
    → k.job_id ≡ j.job_id
    → get_job i (save_job k db) ≡ some k
get_job-save_job i j k db found same =
    let under : key k ≡ i = same ∙ row-key key i j db.jobs found in
    subst (λ n. get_job n (save_job k db) ≡ some k) under
      (row-put_self key k j db.jobs (subst (λ n. get_job n db ≡ some j) (sym under) found))

-- What a claim that hands out work has found and changed.
pub record Claimed (i : Uuid) (worker : String) (lease : ℕ) (now : Instant)
    (item : TelemetryWorkItem) (db db' : Db) : Type 0 where
  pub job : TelemetryProcessingJob
  pub found : get_job i db ≡ some job
  pub unprocessed : get_processed job.packet_id db ≡ none
  pub claimable : is_claimable job now ≡ true
  pub counted : item.attempt_count ≡ job.attempt_count + 1
  pub saved : get_job i db' ≡ some (claimed_job job worker lease now)
  pub processed : db'.processed ≡ db.processed

claim_work-saved :
    (job : TelemetryProcessingJob) (worker : String) (lease : ℕ) (now : Instant)
    (item : TelemetryWorkItem) (db db' : Db)
    → claim_work job worker lease now db ≡ ok (some item, db')
    → (item.attempt_count ≡ job.attempt_count + 1)
      × (db'.processed ≡ db.processed)
      × (db'.jobs ≡ (save_job (claimed_job job worker lease now) db).jobs)
unfolding claim_work
claim_work-saved job worker lease now item db db' h = ground arith

claim_or_settle-Claimed :
    (i : Uuid) (o : Option ProcessedTelemetry) (job : TelemetryProcessingJob) (worker : String)
    (lease : ℕ) (now : Instant) (item : TelemetryWorkItem) (db db' : Db)
    → get_job i db ≡ some job
    → get_processed job.packet_id db ≡ o
    → claim_or_settle o job worker lease now db ≡ ok (some item, db')
    → Claimed i worker lease now item db db'
unfolding claim_or_settle
claim_or_settle-Claimed i (some existing) job worker lease now item db db' found known h = cc
claim_or_settle-Claimed i none job worker lease now item db db' found known h =
    elim (Bool-cases (is_claimable job now)) [
      | inl e ↦
          let (counted, same, jobs) =
            claim_work-saved job worker lease now item db db' (rw e at h) in
          record {
            job = job;
            found = found;
            unprocessed = known;
            claimable = e;
            counted = counted;
            saved =
                subst (λ js. find (job_is i) js ≡ some (claimed_job job worker lease now))
                  (sym jobs)
                  (get_job-save_job i job (claimed_job job worker lease now) db found refl);
            processed = same;
          }
      | inr e ↦ ground arith
    ]

pub claim-Claimed :
    (i : Uuid) (worker : String) (lease : ℕ) (now : Instant) (item : TelemetryWorkItem)
    (db db' : Db)
    → claim_processing_job i worker lease now db ≡ ok (some item, db')
    → Claimed i worker lease now item db db'
unfolding claim_processing_job
claim-Claimed i worker lease now item db db' h =
    let (u, named, h₁) = >>=-eq-ok (raise_if (str_eq worker "") value_error) _ h in
    let (w, positive, h₂) = >>=-eq-ok (raise_if (lease == 0) value_error) _ h₁ in
    let (job, found, h₃) = >>=-eq-ok (or_raise (get_job i db) processing_job_not_found) _ h₂ in
    claim_or_settle-Claimed i (get_processed job.packet_id db) job worker lease now item db db'
      (or_raise-eq-ok _ _ found) refl h₃

still_leased :
    (o : Option ProcessedTelemetry) (job : TelemetryProcessingJob) (worker : String) (lease : ℕ)
    (now : Instant) (db : Db)
    → o ≡ none
    → is_claimable job now ≡ false
    → claim_or_settle o job worker lease now db ≡ ok (none, db)
unfolding claim_or_settle
still_leased none job worker lease now db e h = rw h refl
still_leased (some existing) job worker lease now db e h = cc

-- A claim by identifier of a job that has no result and may not be claimed changes nothing.
pub claim_refused :
    (i : Uuid) (job : TelemetryProcessingJob) (worker : String) (lease : ℕ) (now : Instant)
    (db : Db)
    → str_eq worker "" ≡ false
    → lease ≢ 0
    → get_job i db ≡ some job
    → get_processed job.packet_id db ≡ none
    → is_claimable job now ≡ false
    → claim_processing_job i worker lease now db ≡ ok (none, db)
unfolding claim_processing_job
claim_refused i job worker lease now db named positive found new h =
    let zero_test : (lease == 0) ≡ false = ground arith in
    rw (named, zero_test, found)
      (still_leased (get_processed job.packet_id db) job worker lease now db new h)

-- While the lease of a claim runs, every later claim of the job, by any worker that has a name and
-- for any lease of positive length, is given nothing and changes nothing.
pub claim-excludes :
    (i : Uuid) (worker other : String) (lease length : ℕ) (now later : Instant)
    (item : TelemetryWorkItem) (db db' : Db)
    → claim_processing_job i worker lease now db ≡ ok (some item, db')
    → str_eq other "" ≡ false
    → length ≢ 0
    → later < now + lease * 1000000
    → claim_processing_job i other length later db' ≡ ok (none, db')
claim-excludes i worker other lease length now later item db db' h named positive before =
    let c = claim-Claimed i worker lease now item db db' h in
    let unprocessed : get_processed c.job.packet_id db' ≡ none =
      ap (λ rows. find (processed_is c.job.packet_id) rows) c.processed ∙ c.unprocessed in
    claim_refused i (claimed_job c.job worker lease now) other length later db' named positive
      c.saved unprocessed (ground arith)

handed_out :
    (o : Option ProcessedTelemetry) (job : TelemetryProcessingJob) (worker : String) (lease : ℕ)
    (now : Instant) (p : LogicalTelemetryPacket) (r : TelemetryDeliveryReceipt) (db : Db)
    → o ≡ none
    → get_packet job.packet_id db ≡ some p
    → get_receipt p.source_receipt_id db ≡ some r
    → is_claimable job now ≡ true
    → Ensures
        (λ q. q.0 ≡ some (work_item (claimed_job job worker lease now) p r))
        (claim_or_settle o job worker lease now db)
unfolding claim_or_settle claim_work
handed_out none job worker lease now p r db e packet receipt h = rw (h, packet, receipt) refl
handed_out (some existing) job worker lease now p r db e packet receipt h = cc

-- What a claim gives of a job without a result, with its packet and its receipt in the database.
pub claim_processing_job-work :
    (i : Uuid) (worker : String) (lease : ℕ) (now : Instant) (job : TelemetryProcessingJob)
    (p : LogicalTelemetryPacket) (r : TelemetryDeliveryReceipt) (db : Db)
    → str_eq worker "" ≡ false
    → lease ≢ 0
    → get_job i db ≡ some job
    → get_processed job.packet_id db ≡ none
    → get_packet job.packet_id db ≡ some p
    → get_receipt p.source_receipt_id db ≡ some r
    → is_claimable job now ≡ true
    → Ensures
        (λ q. q.0 ≡ some (work_item (claimed_job job worker lease now) p r))
        (claim_processing_job i worker lease now db)
claim_processing_job-work i worker lease now job p r db named positive found new packet receipt h =
    let zero_test : (lease == 0) ≡ false = ground arith in
    unfold claim_processing_job in
    rw (named, zero_test, found)
      (handed_out (get_processed job.packet_id db) job worker lease now p r db new packet receipt h)
