-- ===== src/Telemetry/Storage/Jobs/Results.antt =====
-- Results of processing: a completion and the completions after it.
use cislunar_ground_platform.Base.{
  Bool, true, not, Option, none, some, List, [], ◌∷◌, String, str_eq_iff, ◌==◌, bytes_eq_iff, ok,
  err, OnOk, OnOk-bind, OnOk-apply, or_raise, or_raise-eq-ok, raise_if, raise_if-eq-ok, Ensures,
  ◌≡◌, ◌≢◌, refl, sym, ap, ◌∙◌, arith, Bool-cases, ◌↔◌, inl, inr,
}
use cislunar_ground_platform.Base.Int.{ℤ, eqb_ℤ}
use cislunar_ground_platform.Telemetry.Storage.Records.{
  Uuid, Instant, invalid_delivery_state, processing_job_not_found, processing_result_conflict,
  TelemetryProcessingJob, ProcessedTelemetry, ProcessingResultValues, HealthClassification,
}
use cislunar_ground_platform.Telemetry.Storage.Tables.{
  Db, find, get_job, get_processed, save_job, insert_processed, job_is,
}
use cislunar_ground_platform.Telemetry.Storage.Jobs.{settle, text_is}
use cislunar_ground_platform.Telemetry.Storage.Jobs.Lifecycle.{get_job-save_job}
use cislunar_ground_platform.Telemetry.Storage.Completion.{
  texts_eq, class_rank, bool_eq, same_processing_result, is_processing, new_result, completed_job,
  store_result, complete_or_replay, complete_processing_job,
}

texts_eq_iff : (xs ys : List String) → (texts_eq xs ys ≡ true) ↔ (xs ≡ ys)
unfolding texts_eq
texts_eq_iff [] [] = (λ h. refl, λ h. refl)
texts_eq_iff [] (y ∷ ys) = (λ h. cc, λ h. cc)
texts_eq_iff (x ∷ xs) [] = (λ h. cc, λ h. cc)
texts_eq_iff (x ∷ xs) (y ∷ ys) = (
  λ h. ground (arith, str_eq_iff x y, texts_eq_iff xs ys),
  λ h. ground (arith, str_eq_iff x y, texts_eq_iff xs ys),
)

eqb_ℤ_iff : (a b : ℤ) → (eqb_ℤ a b ≡ true) ↔ (a ≡ b)
eqb_ℤ_iff a b = (λ h. ground arith, λ h. ground arith)

class_iff : (a b : HealthClassification) → ((class_rank a == class_rank b) ≡ true) ↔ (a ≡ b)
class_iff a b = (λ h. ground arith, λ h. ground arith)

bool_eq_iff : (a b : Bool) → (bool_eq a b ≡ true) ↔ (a ≡ b)
bool_eq_iff a b = (λ h. ground arith, λ h. ground arith)

-- The test for the same result decides equality of all its fields.
pub same_processing_result_iff :
    (a b : ProcessingResultValues) → (same_processing_result a b ≡ true) ↔ (a ≡ b)
unfolding same_processing_result
same_processing_result_iff a b = (
  λ h. ground (
    arith,
    eqb_ℤ_iff a.temperature_c b.temperature_c,
    eqb_ℤ_iff a.voltage_v b.voltage_v,
    str_eq_iff a.operating_mode b.operating_mode,
    texts_eq_iff a.fault_names b.fault_names,
    class_iff a.classification b.classification,
    bool_eq_iff a.is_stale b.is_stale,
    str_eq_iff a.processor_version b.processor_version,
  ),
  λ h. ground (
    arith,
    eqb_ℤ_iff a.temperature_c b.temperature_c,
    eqb_ℤ_iff a.voltage_v b.voltage_v,
    str_eq_iff a.operating_mode b.operating_mode,
    texts_eq_iff a.fault_names b.fault_names,
    class_iff a.classification b.classification,
    bool_eq_iff a.is_stale b.is_stale,
    str_eq_iff a.processor_version b.processor_version,
  ),
)

-- What a completion that returns has found and left behind.
pub record Completed (i : Uuid) (v : ProcessingResultValues) (stored : ProcessedTelemetry) (db : Db)
    : Type 0 where
  pub job : TelemetryProcessingJob
  pub found : get_job i db ≡ some job
  pub row : get_processed job.packet_id db ≡ some stored
  pub same : stored.result ≡ v

insert_processed-found :
    (p : ProcessedTelemetry) (db : Db)
    → OnOk
        (λ db'. (get_processed p.packet_id db' ≡ some p) × (db'.jobs ≡ db.jobs))
        (insert_processed p db)
unfolding find
insert_processed-found p db = ground (arith, bytes_eq_iff p.packet_id p.packet_id)

store_result-Completed :
    (i : Uuid) (job : TelemetryProcessingJob) (v : ProcessingResultValues) (worker : String)
    (at : Instant) (db : Db)
    → get_job i db ≡ some job
    → OnOk (λ q. Completed i v q.0 q.1) (store_result job v worker at db)
unfolding store_result
store_result-Completed i job v worker at db found =
    OnOk-bind (λ q. Completed i v q.0 q.1)
      (raise_if (not (is_processing job.state)) invalid_delivery_state) _
      λ u running.
        OnOk-bind (λ q. Completed i v q.0 q.1)
          (raise_if (not (text_is worker job.claimed_by)) invalid_delivery_state) _
          λ w owned.
            OnOk-bind (λ q. Completed i v q.0 q.1) (insert_processed (new_result job v at) db) _
              λ db₁ e.
                let (there, jobs) =
                  OnOk-apply
                    (λ x.
                      (get_processed job.packet_id x ≡ some (new_result job v at))
                      × (x.jobs ≡ db.jobs))
                    _ (insert_processed-found (new_result job v at) db) e in
                let present : get_job i db₁ ≡ some job =
                  ap (λ js. find (job_is i) js) jobs ∙ found in
                record {
                  job = completed_job job at;
                  found = get_job-save_job i job (completed_job job at) db₁ present refl;
                  row = there;
                  same = refl;
                }

complete_or_replay-Completed :
    (i : Uuid) (o : Option ProcessedTelemetry) (job : TelemetryProcessingJob)
    (v : ProcessingResultValues) (worker : String) (at now : Instant) (db : Db)
    → get_job i db ≡ some job
    → get_processed job.packet_id db ≡ o
    → OnOk (λ q. Completed i v q.0 q.1) (complete_or_replay o job v worker at now db)
unfolding complete_or_replay
complete_or_replay-Completed i none job v worker at now db found known =
    store_result-Completed i job v worker at db found
complete_or_replay-Completed i (some existing) job v worker at now db found known =
    OnOk-bind (λ (q : ProcessedTelemetry × Db). Completed i v q.0 q.1)
      (raise_if (not (same_processing_result existing.result v)) processing_result_conflict)
      (λ _. ok (existing, save_job (settle job existing now) db))
      λ u checked. record {
        job = settle job existing now;
        found = get_job-save_job i job (settle job existing now) db found refl;
        row = known;
        same =
            (same_processing_result_iff existing.result v).0
              (ground (arith, raise_if-eq-ok _ _ checked));
      }

pub complete-Completed :
    (i : Uuid) (v : ProcessingResultValues) (worker : String) (at now : Instant) (db : Db)
    → OnOk (λ q. Completed i v q.0 q.1) (complete_processing_job i v worker at now db)
unfolding complete_processing_job
complete-Completed i v worker at now db =
    OnOk-bind (λ q. Completed i v q.0 q.1) (or_raise (get_job i db) processing_job_not_found) _
      λ job found.
        complete_or_replay-Completed i (get_processed job.packet_id db) job v worker at now db
          (or_raise-eq-ok _ _ found) refl

replayed :
    (job : TelemetryProcessingJob) (stored : ProcessedTelemetry) (v : ProcessingResultValues)
    (worker : String) (at now : Instant) (db : Db)
    → (v ≡ stored.result
        → complete_or_replay (some stored) job v worker at now db
          ≡ ok (stored, save_job (settle job stored now) db))
      × (v ≢ stored.result
          → complete_or_replay (some stored) job v worker at now db
            ≡ err processing_result_conflict)
unfolding complete_or_replay
replayed job stored v worker at now db =
    let same = same_processing_result_iff stored.result v in
    (
      λ h. rw (same.1 (sym h)) refl,
      λ h. elim (Bool-cases (same_processing_result stored.result v)) [
        | inl e ↦ absurd (h (sym (same.0 e)))
        | inr e ↦ rw e refl
      ],
    )

-- After a completion has returned the stored result, a second completion of the job, by any worker
-- at any time, returns the same stored result and adds none if it brings equal values, and is
-- refused with a conflict if its values differ.
pub complete_processing_job-idempotent :
    (i : Uuid) (v w : ProcessingResultValues) (worker other : String) (at now again later : Instant)
    (stored : ProcessedTelemetry) (db db' : Db)
    → complete_processing_job i v worker at now db ≡ ok (stored, db')
    → (w ≡ v
        → Ensures
            (λ q. (q.0 ≡ stored) × (q.1.processed ≡ db'.processed))
            (complete_processing_job i w other again later db'))
      × (w ≢ v → complete_processing_job i w other again later db' ≡ err processing_result_conflict)
complete_processing_job-idempotent i v w worker other at now again later stored db db' h =
    let c : Completed i v stored db' =
      OnOk-apply (λ q. Completed i v q.0 q.1) _ (complete-Completed i v worker at now db) h in
    let second = replayed c.job stored w other again later db' in
    (
      λ e.
          unfold complete_processing_job in
          rw (c.found, c.row, second.0 (e ∙ sym c.same)) (refl, refl),
      λ e. unfold complete_processing_job in rw (c.found, c.row) (second.1 (λ x. e (x ∙ c.same))),
    )
