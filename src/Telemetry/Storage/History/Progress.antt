-- ===== src/Telemetry/Storage/History/Progress.antt =====
-- What a transaction may do to the jobs and the packets, for deliveries and acceptance.
use cislunar_ground_platform.Base.{
  ℕ, ◌≤◌, true, false, Option, none, some, List, ◌∷◌, String, or_raise, OnOk, OnOk-bind, OnOk-apply,
  ◌≡◌, refl, sym, ap, ◌∙◌, subst, arith,
}
use cislunar_ground_platform.Base.Int.{ℤ}
use cislunar_ground_platform.Telemetry.Storage.Records.{
  Uuid, Instant, Json, TelemetryDeliveryReceipt, DeliveryValidationStatus, SequenceDisposition,
  LogicalTelemetryPacket, DecodedTelemetryValues, TelemetryRequestIdentity, TelemetrySequenceState,
  TelemetryProcessingJob, delivery_not_found,
}
use cislunar_ground_platform.Telemetry.Storage.Tables.{
  Db, find, is_some, get_receipt, save_job, insert_packet, insert_job, packet_has_key, sequence_is,
  get_job, get_packet, identity_is, job_is,
}
use cislunar_ground_platform.Telemetry.Storage.Tables.Rows.{row-key}
use cislunar_ground_platform.Telemetry.Storage.Deliveries.{
  Delivery, new_receipt, store_receipt, repeat_delivery, record_known, record_for, record_attempt,
  record_identity, reject_by_status, reject_delivery,
}
use cislunar_ground_platform.Telemetry.Storage.Repeats.{
  values_packet_id, accept_duplicate, accept_conflict, accept_existing,
}
use cislunar_ground_platform.Telemetry.Storage.Acceptance.{
  place, new_packet, record_sequence, new_job, store_packet, state_conflict, accept_placed,
  accept_new, accept_found, accept_pending, accept_by_status, accept_packet_transaction,
}
use cislunar_ground_platform.Telemetry.Storage.Jobs.{is_complete}

-- How far a job may change.
pub record Advances (j k : TelemetryProcessingJob) : Type 0 where
  pub packet : k.packet_id ≡ j.packet_id
  pub most : k.max_attempts ≡ j.max_attempts
  pub attempts : j.attempt_count ≤ k.attempt_count
  pub final : is_complete j.state ≡ true → is_complete k.state ≡ true

abbrev pub Untouched : Db → Db → Type 0
Untouched db db' = (db'.jobs ≡ db.jobs) × (db'.packets ≡ db.packets)

-- What one transaction may do to the jobs and the packets: nothing, one job is changed, or one
-- packet comes with its job.
pub data Change (db db' : Db) : Type 0 where
  idle : Untouched db db' → Change db db'
  moves :
      (j k : TelemetryProcessingJob)
      → get_job k.job_id db ≡ some j
      → Advances j k
      → db'.jobs ≡ (save_job k db).jobs
      → db'.packets ≡ db.packets
      → Change db db'
  adds :
      (p : LogicalTelemetryPacket) (j : TelemetryProcessingJob)
      → j.packet_id ≡ p.packet_id
      → is_some (get_packet p.packet_id db) ≡ false
      → is_some (get_job j.job_id db) ≡ false
      → db'.jobs ≡ j ∷ db.jobs
      → db'.packets ≡ p ∷ db.packets
      → Change db db'

pub unchanged : (db : Db) → Change db db
unchanged db = idle (refl, refl)

abbrev job_key : TelemetryProcessingJob → ℕ
job_key j = j.job_id

pub own_job :
    (i : Uuid) (j : TelemetryProcessingJob) (db : Db)
    → get_job i db ≡ some j
    → get_job j.job_id db ≡ some j
own_job i j db h = subst (λ k. get_job k db ≡ some j) (sym (row-key job_key i j db.jobs h)) h

record_identity_jobs :
    (request : Option Uuid) (first : Option TelemetryDeliveryReceipt)
    (receipt : TelemetryDeliveryReceipt) (db : Db)
    → OnOk (λ db'. Untouched db db') (record_identity request first receipt db)
unfolding record_identity
record_identity_jobs none first receipt db = (refl, refl)
record_identity_jobs (some i) (some f) receipt db = (refl, refl)
record_identity_jobs (some i) none receipt db = ground arith

store_receipt_jobs :
    (d : Delivery) (fresh : Uuid) (now : Instant) (first : Option TelemetryDeliveryReceipt)
    (db : Db)
    → OnOk (λ q. Untouched db q.1) (store_receipt d fresh now first db)
unfolding store_receipt
store_receipt_jobs d fresh now first db = ground (
  arith,
  λ (x : Db). record_identity_jobs d.canonical_request_id first (new_receipt d fresh now first) x,
)

repeat_delivery_jobs :
    (d : Delivery) (fresh : Uuid) (now : Instant) (identity : TelemetryRequestIdentity) (db : Db)
    → OnOk (λ q. Untouched db q.1) (repeat_delivery d fresh now identity db)
unfolding repeat_delivery
repeat_delivery_jobs d fresh now identity db =
    ground (arith, λ (x : TelemetryDeliveryReceipt). store_receipt_jobs d fresh now (some x) db)

record_known_jobs :
    (d : Delivery) (fresh : Uuid) (now : Instant) (known : Option TelemetryRequestIdentity)
    (db : Db)
    → OnOk (λ q. Untouched db q.1) (record_known d fresh now known db)
unfolding record_known
record_known_jobs d fresh now none db = store_receipt_jobs d fresh now none db
record_known_jobs d fresh now (some identity) db = repeat_delivery_jobs d fresh now identity db

record_for_jobs :
    (request : Option Uuid) (d : Delivery) (fresh : Uuid) (now : Instant) (db : Db)
    → OnOk (λ q. Untouched db q.1) (record_for request d fresh now db)
unfolding record_for
record_for_jobs none d fresh now db = store_receipt_jobs d fresh now none db
record_for_jobs (some i) d fresh now db =
    record_known_jobs d fresh now (find (identity_is i) db.identities) db

pub record_attempt_jobs :
    (d : Delivery) (fresh : Uuid) (now : Instant) (db : Db)
    → OnOk (λ q. Untouched db q.1) (record_attempt d fresh now db)
record_attempt_jobs d fresh now db =
    unfold record_attempt in record_for_jobs d.canonical_request_id d fresh now db

reject_by_status_jobs :
    (s : DeliveryValidationStatus) (r : TelemetryDeliveryReceipt) (reason : String)
    (parsed : Option Json) (actor : String) (now : Instant) (db : Db)
    → OnOk (λ q. Untouched db q.1) (reject_by_status s r reason parsed actor now db)
unfolding reject_by_status
reject_by_status_jobs DeliveryValidationStatus.rejected r reason parsed actor now db = ground arith
reject_by_status_jobs DeliveryValidationStatus.pending r reason parsed actor now db = (refl, refl)
reject_by_status_jobs _ r reason parsed actor now db = tt

pub reject_delivery_jobs :
    (i : Uuid) (reason : String) (parsed : Option Json) (actor : String) (now : Instant) (db : Db)
    → OnOk (λ q. Untouched db q.1) (reject_delivery i reason parsed actor now db)
unfolding reject_delivery
reject_delivery_jobs i reason parsed actor now db =
    OnOk-bind (λ q. Untouched db q.1) (or_raise (get_receipt i db) delivery_not_found) _
      λ r found. reject_by_status_jobs r.validation_status r reason parsed actor now db

insert_packet_rows :
    (p : LogicalTelemetryPacket) (db : Db)
    → OnOk
        (λ db'.
          (is_some (get_packet p.packet_id db) ≡ false)
          × (db'.jobs ≡ db.jobs)
          × (db'.packets ≡ p ∷ db.packets))
        (insert_packet p db)
insert_packet_rows p db = ground arith

record_sequence_jobs :
    (state : Option TelemetrySequenceState) (v : DecodedTelemetryValues) (d : SequenceDisposition)
    (missing : ℤ) (now : Instant) (db : Db)
    → OnOk (λ db'. Untouched db db') (record_sequence state v d missing now db)
unfolding record_sequence
record_sequence_jobs none v d missing now db = ground arith
record_sequence_jobs (some state) v d missing now db = (refl, refl)

insert_job_rows :
    (j : TelemetryProcessingJob) (db : Db)
    → OnOk
        (λ db'.
          (is_some (get_job j.job_id db) ≡ false)
          × (db'.jobs ≡ j ∷ db.jobs)
          × (db'.packets ≡ db.packets))
        (insert_job j db)
insert_job_rows j db = ground arith

store_packet-Change :
    (r : TelemetryDeliveryReceipt) (v : DecodedTelemetryValues)
    (state : Option TelemetrySequenceState) (d : SequenceDisposition) (missing : ℤ) (job : Uuid)
    (most : ℕ) (actor : String) (now : Instant) (db : Db)
    → OnOk (λ q. Change db q.1) (store_packet r v state d missing job most actor now db)
unfolding store_packet
store_packet-Change r v state d missing job most actor now db =
    let packet = new_packet r v d missing now in
    let work = new_job job (values_packet_id v) most now in
    OnOk-bind (λ q. Change db q.1) (insert_packet packet db) _
      λ db₁ e₁.
        OnOk-bind (λ q. Change db q.1) (record_sequence state v d missing now db₁) _
          λ db₂ e₂.
            OnOk-bind (λ q. Change db q.1) (insert_job work db₂) _
              λ db₃ e₃.
                let (new, jobs₁, packets₁) =
                  OnOk-apply
                    (λ x.
                      (is_some (get_packet packet.packet_id db) ≡ false)
                      × (x.jobs ≡ db.jobs)
                      × (x.packets ≡ packet ∷ db.packets))
                    _ (insert_packet_rows packet db) e₁ in
                let (jobs₂, packets₂) =
                  OnOk-apply (λ x. Untouched db₁ x) _
                    (record_sequence_jobs state v d missing now db₁) e₂ in
                let (free, jobs₃, packets₃) =
                  OnOk-apply
                    (λ x.
                      (is_some (get_job job db₂) ≡ false)
                      × (x.jobs ≡ work ∷ db₂.jobs)
                      × (x.packets ≡ db₂.packets))
                    _ (insert_job_rows work db₂) e₃ in
                adds packet work refl new
                  (ap (λ js. is_some (find (job_is job) js)) (sym (jobs₂ ∙ jobs₁)) ∙ free)
                  (jobs₃ ∙ ap (λ (js : List TelemetryProcessingJob). work ∷ js) (jobs₂ ∙ jobs₁))
                  (packets₃ ∙ (packets₂ ∙ packets₁))

accept_placed-Change :
    (o : Option (SequenceDisposition × ℤ)) (r : TelemetryDeliveryReceipt)
    (v : DecodedTelemetryValues) (state : Option TelemetrySequenceState) (job : Uuid) (most : ℕ)
    (actor : String) (now : Instant) (db : Db)
    → OnOk (λ q. Change db q.1) (accept_placed o r v state job most actor now db)
unfolding accept_placed state_conflict
accept_placed-Change none r v state job most actor now db = idle (refl, refl)
accept_placed-Change (some (d, missing)) r v state job most actor now db =
    store_packet-Change r v state d missing job most actor now db

accept_existing_jobs :
    (r : TelemetryDeliveryReceipt) (p : LogicalTelemetryPacket) (v : DecodedTelemetryValues)
    (actor : String) (now : Instant) (db : Db)
    → Untouched db (accept_existing r p v actor now db).1
unfolding accept_existing accept_duplicate accept_conflict
accept_existing_jobs r p v actor now db = ground arith

accept_found-Change :
    (o : Option LogicalTelemetryPacket) (r : TelemetryDeliveryReceipt) (v : DecodedTelemetryValues)
    (job : Uuid) (most : ℕ) (actor : String) (now : Instant) (db : Db)
    → OnOk (λ q. Change db q.1) (accept_found o r v job most actor now db)
unfolding accept_found
accept_found-Change none r v job most actor now db =
    unfold accept_new in
    let state = find (sequence_is v.payload_id v.boot_id) db.sequences in
    accept_placed-Change (place state v.sequence_number) r v state job most actor now db
accept_found-Change (some existing) r v job most actor now db =
    idle (accept_existing_jobs r existing v actor now db)

accept_by_status-Change :
    (s : DeliveryValidationStatus) (r : TelemetryDeliveryReceipt) (v : DecodedTelemetryValues)
    (job : Uuid) (most : ℕ) (actor : String) (now : Instant) (db : Db)
    → OnOk (λ q. Change db q.1) (accept_by_status s r v job most actor now db)
unfolding accept_by_status
accept_by_status-Change DeliveryValidationStatus.accepted r v job most actor now db = unchanged db
accept_by_status-Change DeliveryValidationStatus.duplicate r v job most actor now db = unchanged db
accept_by_status-Change DeliveryValidationStatus.pending r v job most actor now db =
    unfold accept_pending in
    accept_found-Change (find (packet_has_key v.payload_id v.boot_id v.sequence_number) db.packets)
      r v job most actor now db
accept_by_status-Change _ r v job most actor now db = tt

pub accept_packet-Change :
    (i : Uuid) (v : DecodedTelemetryValues) (job : Uuid) (most : ℕ) (actor : String) (now : Instant)
    (db : Db)
    → OnOk (λ q. Change db q.1) (accept_packet_transaction i v job most actor now db)
unfolding accept_packet_transaction
accept_packet-Change i v job most actor now db =
    OnOk-bind (λ q. Change db q.1) (or_raise (get_receipt i db) delivery_not_found) _
      λ r found. accept_by_status-Change r.validation_status r v job most actor now db
