-- ===== src/Telemetry/Storage/History/Permanence.antt =====
-- The remaining transactions, acceptance and the life of a job, on the evidence; then all of them
-- along a run.
use cislunar_ground_platform.Base.{
  ℕ, Bool, false, not, Option, none, some, Bytes, String, ok, raise_if, or_raise, or_raise-eq-ok,
  OnOk, OnOk-if, if_elim, OnOk-bind, OnOk-apply, ◌≡◌, refl, sym, ap, ◌∙◌, subst, arith,
}
use cislunar_ground_platform.Base.Int.{ℤ}
use cislunar_ground_platform.Telemetry.Storage.Records.{
  Uuid, Instant, TelemetryDeliveryReceipt, DeliveryValidationStatus, SequenceDisposition,
  LogicalTelemetryPacket, DecodedTelemetryValues, TelemetrySequenceState, TelemetryProcessingJob,
  ProcessedTelemetry, ProcessingResultValues, ProcessingJobState, delivery_not_found,
  processing_job_not_found, storage_error, invalid_delivery_state,
}
use cislunar_ground_platform.Telemetry.Storage.Tables.{
  Db, find, get_receipt, save_receipt, insert_packet, insert_job, packet_has_key, sequence_is,
  get_job, get_packet, get_processed, insert_processed,
}
use cislunar_ground_platform.Telemetry.Storage.Tables.Rows.{Keeps, Keeps-trans, Keeps-map}
use cislunar_ground_platform.Telemetry.Storage.Acceptance.{
  place, new_packet, record_sequence, new_job, accepted_receipt, store_packet,
  state_conflict_receipt, state_conflict, accept_placed, accept_new, accept_found, accept_pending,
  accept_by_status, accept_packet_transaction,
}
use cislunar_ground_platform.Telemetry.Storage.Repeats.{values_packet_id}
use cislunar_ground_platform.Telemetry.Storage.Jobs.{
  mark_receipt, accepted_for, queued_receipt, enqueue_job, mark_by_state, mark_job_queued,
  claim_work, claim_or_settle, claim_processing_job, codes_are, is_complete, is_claimable,
}
use cislunar_ground_platform.Telemetry.Storage.Completion.{
  store_result, complete_or_replay, complete_processing_job, save_failure, fail_by_state,
  fail_processing_attempt, new_result,
}
use cislunar_ground_platform.Telemetry.Storage.History.{
  Step, records, rejects, accepts, marks, claims, completes, fails, audits, Run, here, next,
}
use cislunar_ground_platform.Telemetry.Storage.History.Evidence.{
  SameEvidence, receipt_key, KeepsEvidence, SameEvidence-refl, same_receipts, saved-KeepsEvidence,
  unchanged-KeepsEvidence, own_row, record_attempt-KeepsEvidence, reject_delivery-KeepsEvidence,
  accept_existing-KeepsEvidence,
}

record_sequence_receipts :
    (state : Option TelemetrySequenceState) (v : DecodedTelemetryValues) (d : SequenceDisposition)
    (missing : ℤ) (now : Instant) (db : Db)
    → OnOk (λ db'. db'.receipts ≡ db.receipts) (record_sequence state v d missing now db)
unfolding record_sequence
record_sequence_receipts none v d missing now db = ground arith
record_sequence_receipts (some state) v d missing now db = refl

insert_packet_receipts :
    (p : LogicalTelemetryPacket) (db : Db)
    → OnOk (λ db'. db'.receipts ≡ db.receipts) (insert_packet p db)
insert_packet_receipts p db = ground arith

insert_job_receipts :
    (j : TelemetryProcessingJob) (db : Db)
    → OnOk (λ db'. db'.receipts ≡ db.receipts) (insert_job j db)
insert_job_receipts j db = ground arith

store_packet-KeepsEvidence :
    (r : TelemetryDeliveryReceipt) (v : DecodedTelemetryValues)
    (state : Option TelemetrySequenceState) (d : SequenceDisposition) (missing : ℤ) (job : Uuid)
    (most : ℕ) (actor : String) (now : Instant) (db : Db)
    → get_receipt r.receipt_id db ≡ some r
    → OnOk (λ q. KeepsEvidence db q.1) (store_packet r v state d missing job most actor now db)
unfolding store_packet
store_packet-KeepsEvidence r v state d missing job most actor now db found =
    OnOk-bind (λ q. KeepsEvidence db q.1) (insert_packet (new_packet r v d missing now) db) _
      λ db₁ e₁.
        OnOk-bind (λ q. KeepsEvidence db q.1) (record_sequence state v d missing now db₁) _
          λ db₂ e₂.
            OnOk-bind (λ q. KeepsEvidence db q.1)
              (insert_job (new_job job (values_packet_id v) most now) db₂) _
              λ db₃ e₃.
                let s₁ : db₁.receipts ≡ db.receipts =
                  OnOk-apply (λ x. x.receipts ≡ db.receipts) _ (insert_packet_receipts _ db) e₁ in
                let s₂ : db₂.receipts ≡ db₁.receipts =
                  OnOk-apply (λ x. x.receipts ≡ db₁.receipts) _
                    (record_sequence_receipts state v d missing now db₁) e₂ in
                let s₃ : db₃.receipts ≡ db₂.receipts =
                  OnOk-apply (λ x. x.receipts ≡ db₂.receipts) _ (insert_job_receipts _ db₂) e₃ in
                subst
                  (λ rs.
                    Keeps receipt_key SameEvidence db.receipts
                      (save_receipt (accepted_receipt r v now)
                        (record db { receipts = rs })).receipts)
                  (sym (s₃ ∙ (s₂ ∙ s₁)))
                  (saved-KeepsEvidence r (accepted_receipt r v now) db found
                    (record { raw = refl; size = refl; digest = refl; time = refl }))

accept_placed-KeepsEvidence :
    (o : Option (SequenceDisposition × ℤ)) (r : TelemetryDeliveryReceipt)
    (v : DecodedTelemetryValues) (state : Option TelemetrySequenceState) (job : Uuid) (most : ℕ)
    (actor : String) (now : Instant) (db : Db)
    → get_receipt r.receipt_id db ≡ some r
    → OnOk (λ q. KeepsEvidence db q.1) (accept_placed o r v state job most actor now db)
unfolding accept_placed
accept_placed-KeepsEvidence none r v state job most actor now db found =
    unfold state_conflict in
    saved-KeepsEvidence r (state_conflict_receipt r v now) db found
      (record { raw = refl; size = refl; digest = refl; time = refl })
accept_placed-KeepsEvidence (some (d, missing)) r v state job most actor now db found =
    store_packet-KeepsEvidence r v state d missing job most actor now db found

accept_found-KeepsEvidence :
    (o : Option LogicalTelemetryPacket) (r : TelemetryDeliveryReceipt) (v : DecodedTelemetryValues)
    (job : Uuid) (most : ℕ) (actor : String) (now : Instant) (db : Db)
    → get_receipt r.receipt_id db ≡ some r
    → OnOk (λ q. KeepsEvidence db q.1) (accept_found o r v job most actor now db)
unfolding accept_found
accept_found-KeepsEvidence none r v job most actor now db found =
    unfold accept_new in
    let state = find (sequence_is v.payload_id v.boot_id) db.sequences in
    accept_placed-KeepsEvidence (place state v.sequence_number) r v state job most actor now db
      found
accept_found-KeepsEvidence (some existing) r v job most actor now db found =
    accept_existing-KeepsEvidence r existing v actor now db found

accept_by_status-KeepsEvidence :
    (s : DeliveryValidationStatus) (r : TelemetryDeliveryReceipt) (v : DecodedTelemetryValues)
    (job : Uuid) (most : ℕ) (actor : String) (now : Instant) (db : Db)
    → get_receipt r.receipt_id db ≡ some r
    → OnOk (λ q. KeepsEvidence db q.1) (accept_by_status s r v job most actor now db)
unfolding accept_by_status
accept_by_status-KeepsEvidence DeliveryValidationStatus.accepted r v job most actor now db found =
    unchanged-KeepsEvidence db
accept_by_status-KeepsEvidence DeliveryValidationStatus.duplicate r v job most actor now db found =
    unchanged-KeepsEvidence db
accept_by_status-KeepsEvidence DeliveryValidationStatus.pending r v job most actor now db found =
    unfold accept_pending in
    accept_found-KeepsEvidence
      (find (packet_has_key v.payload_id v.boot_id v.sequence_number) db.packets) r v job most actor
      now db found
accept_by_status-KeepsEvidence _ r v job most actor now db found = tt

accept_packet-KeepsEvidence :
    (i : Uuid) (v : DecodedTelemetryValues) (job : Uuid) (most : ℕ) (actor : String) (now : Instant)
    (db : Db)
    → OnOk (λ q. KeepsEvidence db q.1) (accept_packet_transaction i v job most actor now db)
unfolding accept_packet_transaction
accept_packet-KeepsEvidence i v job most actor now db =
    OnOk-bind (λ q. KeepsEvidence db q.1) (or_raise (get_receipt i db) delivery_not_found) _
      λ r found.
        accept_by_status-KeepsEvidence r.validation_status r v job most actor now db
          (own_row i r db (or_raise-eq-ok _ _ found))

mark_receipt-SameEvidence :
    (packet_id : Bytes) (now : Instant) (r : TelemetryDeliveryReceipt)
    → SameEvidence r (mark_receipt packet_id now r)
mark_receipt-SameEvidence packet_id now r =
    if_elim (SameEvidence r) (accepted_for packet_id r) (queued_receipt now r) r
      (record { raw = refl; size = refl; digest = refl; time = refl }) (SameEvidence-refl r)

mark_receipt-key :
    (packet_id : Bytes) (now : Instant) (r : TelemetryDeliveryReceipt)
    → receipt_key (mark_receipt packet_id now r) ≡ receipt_key r
mark_receipt-key packet_id now r =
    if_elim (λ s. receipt_key s ≡ receipt_key r) (accepted_for packet_id r) (queued_receipt now r) r
      refl refl

enqueue_job-KeepsEvidence :
    (job : TelemetryProcessingJob) (message : Bytes) (actor : String) (now : Instant) (db : Db)
    → KeepsEvidence db (enqueue_job job message actor now db).1
unfolding enqueue_job
enqueue_job-KeepsEvidence job message actor now db =
    Keeps-map receipt_key SameEvidence (mark_receipt job.packet_id now) db.receipts
      (mark_receipt-key job.packet_id now) (mark_receipt-SameEvidence job.packet_id now)

mark_by_state-KeepsEvidence :
    (s : ProcessingJobState) (job : TelemetryProcessingJob) (message : Bytes) (actor : String)
    (now : Instant) (db : Db)
    → OnOk (λ q. KeepsEvidence db q.1) (mark_by_state s job message actor now db)
unfolding mark_by_state
mark_by_state-KeepsEvidence ProcessingJobState.queued job message actor now db =
    OnOk-bind (λ (q : Bool × Db). KeepsEvidence db q.1)
      (raise_if (not (codes_are message job.queue_message_id)) invalid_delivery_state)
      (λ _. ok (false, db)) λ u checked. unchanged-KeepsEvidence db
mark_by_state-KeepsEvidence ProcessingJobState.pending_queue job message actor now db =
    enqueue_job-KeepsEvidence job message actor now db
mark_by_state-KeepsEvidence ProcessingJobState.retry_wait job message actor now db =
    enqueue_job-KeepsEvidence job message actor now db
mark_by_state-KeepsEvidence _ job message actor now db = tt

mark_job_queued-KeepsEvidence :
    (i : Uuid) (message : Bytes) (actor : String) (now : Instant) (db : Db)
    → OnOk (λ q. KeepsEvidence db q.1) (mark_job_queued i message actor now db)
unfolding mark_job_queued
mark_job_queued-KeepsEvidence i message actor now db =
    OnOk-bind (λ q. KeepsEvidence db q.1) (or_raise (get_job i db) processing_job_not_found) _
      λ job found. mark_by_state-KeepsEvidence job.state job message actor now db

claim_work_receipts :
    (job : TelemetryProcessingJob) (worker : String) (lease : ℕ) (now : Instant) (db : Db)
    → OnOk (λ q. q.1.receipts ≡ db.receipts) (claim_work job worker lease now db)
unfolding claim_work
claim_work_receipts job worker lease now db =
    OnOk-bind (λ q. q.1.receipts ≡ db.receipts)
      (or_raise (get_packet job.packet_id db) storage_error) _
      λ p found.
        OnOk-bind (λ q. q.1.receipts ≡ db.receipts)
          (or_raise (get_receipt p.source_receipt_id db) storage_error) _ λ r present. refl

claim_or_settle_receipts :
    (o : Option ProcessedTelemetry) (job : TelemetryProcessingJob) (worker : String) (lease : ℕ)
    (now : Instant) (db : Db)
    → OnOk (λ q. q.1.receipts ≡ db.receipts) (claim_or_settle o job worker lease now db)
unfolding claim_or_settle
claim_or_settle_receipts (some existing) job worker lease now db =
    if_elim (λ (x : Db). x.receipts ≡ db.receipts) (is_complete job.state) _ _ refl refl
claim_or_settle_receipts none job worker lease now db =
    OnOk-if (λ q. q.1.receipts ≡ db.receipts) (is_claimable job now) _ _
      (claim_work_receipts job worker lease now db) refl

claim_receipts :
    (i : Uuid) (worker : String) (lease : ℕ) (now : Instant) (db : Db)
    → OnOk (λ q. q.1.receipts ≡ db.receipts) (claim_processing_job i worker lease now db)
unfolding claim_processing_job
claim_receipts i worker lease now db = ground (
  arith,
  λ (job : TelemetryProcessingJob).
      claim_or_settle_receipts (get_processed job.packet_id db) job worker lease now db,
)

insert_processed_receipts :
    (p : ProcessedTelemetry) (db : Db)
    → OnOk (λ db'. db'.receipts ≡ db.receipts) (insert_processed p db)
insert_processed_receipts p db = ground arith

store_result_receipts :
    (job : TelemetryProcessingJob) (v : ProcessingResultValues) (worker : String) (at : Instant)
    (db : Db)
    → OnOk (λ q. q.1.receipts ≡ db.receipts) (store_result job v worker at db)
unfolding store_result
store_result_receipts job v worker at db =
    ground (arith, insert_processed_receipts (new_result job v at) db)

complete_or_replay_receipts :
    (o : Option ProcessedTelemetry) (job : TelemetryProcessingJob) (v : ProcessingResultValues)
    (worker : String) (at now : Instant) (db : Db)
    → OnOk (λ q. q.1.receipts ≡ db.receipts) (complete_or_replay o job v worker at now db)
unfolding complete_or_replay
complete_or_replay_receipts none job v worker at now db = store_result_receipts job v worker at db
complete_or_replay_receipts (some existing) job v worker at now db = ground arith

complete_receipts :
    (i : Uuid) (v : ProcessingResultValues) (worker : String) (at now : Instant) (db : Db)
    → OnOk (λ q. q.1.receipts ≡ db.receipts) (complete_processing_job i v worker at now db)
unfolding complete_processing_job
complete_receipts i v worker at now db =
    OnOk-bind (λ q. q.1.receipts ≡ db.receipts) (or_raise (get_job i db) processing_job_not_found) _
      λ job found.
        complete_or_replay_receipts (get_processed job.packet_id db) job v worker at now db

fail_by_state_receipts :
    (s : ProcessingJobState) (job : TelemetryProcessingJob) (worker reason : String)
    (temporary : Bool) (base : ℕ) (now : Instant) (db : Db)
    → OnOk
        (λ q. q.1.receipts ≡ db.receipts)
        (fail_by_state s job worker reason temporary base now db)
unfolding fail_by_state save_failure
fail_by_state_receipts ProcessingJobState.failed job worker reason temporary base now db = refl
fail_by_state_receipts ProcessingJobState.processing job worker reason temporary base now db =
    ground arith
fail_by_state_receipts _ job worker reason temporary base now db = tt

fail_receipts :
    (i : Uuid) (worker reason : String) (temporary : Bool) (base : ℕ) (now : Instant) (db : Db)
    → OnOk
        (λ q. q.1.receipts ≡ db.receipts)
        (fail_processing_attempt i worker reason temporary base now db)
unfolding fail_processing_attempt
fail_receipts i worker reason temporary base now db = ground (
  arith,
  λ (job : TelemetryProcessingJob).
      fail_by_state_receipts job.state job worker reason temporary base now db,
)

-- One committed transaction keeps the evidence.
pub Step-KeepsEvidence : (db db' : Db) → Step db db' → KeepsEvidence db db'
Step-KeepsEvidence db db' (records d fresh now r e) =
    OnOk-apply (λ q. KeepsEvidence db q.1) _ (record_attempt-KeepsEvidence d fresh now db) e
Step-KeepsEvidence db db' (rejects i reason parsed actor now r e) =
    OnOk-apply (λ q. KeepsEvidence db q.1) _
      (reject_delivery-KeepsEvidence i reason parsed actor now db) e
Step-KeepsEvidence db db' (accepts i v job most actor now r e) =
    OnOk-apply (λ q. KeepsEvidence db q.1) _ (accept_packet-KeepsEvidence i v job most actor now db)
      e
Step-KeepsEvidence db db' (marks i message actor now r e) =
    OnOk-apply (λ q. KeepsEvidence db q.1) _ (mark_job_queued-KeepsEvidence i message actor now db)
      e
Step-KeepsEvidence db db' (claims i worker lease now r e) =
    same_receipts db db'
      (OnOk-apply (λ q. q.1.receipts ≡ db.receipts) _ (claim_receipts i worker lease now db) e)
Step-KeepsEvidence db db' (completes i v worker at now r e) =
    same_receipts db db'
      (OnOk-apply (λ q. q.1.receipts ≡ db.receipts) _ (complete_receipts i v worker at now db) e)
Step-KeepsEvidence db db' (fails i worker reason temporary base now r e) = same_receipts db db' (
    OnOk-apply (λ q. q.1.receipts ≡ db.receipts) _
      (fail_receipts i worker reason temporary base now db) e)
Step-KeepsEvidence db db' (audits event e) = same_receipts db db' (ap (λ x. x.receipts) e)

SameEvidence-trans :
    (r s t : TelemetryDeliveryReceipt) → SameEvidence r s → SameEvidence s t → SameEvidence r t
SameEvidence-trans r s t a b = record {
  raw = b.raw ∙ a.raw;
  size = b.size ∙ a.size;
  digest = b.digest ∙ a.digest;
  time = b.time ∙ a.time;
}

-- Whatever the services do in a run of committed transactions, each receipt of the first database
-- is found under its identifier in the last, with the same raw bytes, size, digest and time of
-- receipt.
pub Run-KeepsEvidence : (db db' : Db) → Run db db' → KeepsEvidence db db'
Run-KeepsEvidence db db' here = unchanged-KeepsEvidence db
Run-KeepsEvidence db db' (next {db' = middle} run step) =
    Keeps-trans receipt_key SameEvidence db.receipts middle.receipts db'.receipts SameEvidence-trans
      (Run-KeepsEvidence db middle run) (Step-KeepsEvidence middle db' step)
