-- ===== src/Telemetry/Storage/Acceptance/Replay.antt =====
-- A packet that was accepted once: what its receipt gives when it is presented again.
use cislunar_ground_platform.Base.{
  ℕ, false, Option, none, some, String, bytes_eq_iff, ok, ◌>>=◌, or_raise, or_raise-eq-ok, Ensures,
  OnOk, OnOk-bind, OnOk-apply, ◌≡◌, ◌≢◌, refl, sym, ap, ◌∙◌, subst, arith,
}
use cislunar_ground_platform.Base.Int.{ℤ}
use cislunar_ground_platform.Telemetry.Storage.Records.{
  Uuid, Instant, DeliveryValidationStatus, SequenceDisposition, TelemetryDeliveryReceipt,
  LogicalTelemetryPacket, TelemetryProcessingJob, TelemetrySequenceState, DecodedTelemetryValues,
  PacketAcceptanceResult, delivery_not_found,
}
use cislunar_ground_platform.Telemetry.Storage.Tables.{
  Db, find, receipt_is, packet_is, packet_has_key, sequence_is, get_receipt, get_packet,
  get_job_for_packet, save_receipt, insert_packet, insert_job,
}
use cislunar_ground_platform.Telemetry.Storage.Tables.Rows.{row-put_self, row-key}
use cislunar_ground_platform.Telemetry.Storage.Repeats.{
  values_packet_id, earlier_result, accept_existing, accept_duplicate, accept_conflict,
}
use cislunar_ground_platform.Telemetry.Storage.Acceptance.{
  place, new_packet, record_sequence, new_job, accepted_receipt, store_packet, state_conflict,
  accept_placed, accept_new, accept_found, accept_pending, accept_by_status,
  accept_packet_transaction,
}

-- The two results say the same of the packet.
pub record SameAcceptance (a b : PacketAcceptanceResult) : Type 0 where
  pub receipt : b.receipt_id ≡ a.receipt_id
  pub packet : b.packet_id ≡ a.packet_id
  pub job : b.job_id ≡ a.job_id
  pub status : b.validation_status ≡ a.validation_status
  pub queue : b.queue_status ≡ a.queue_status
  pub disposition : b.sequence_disposition ≡ a.sequence_disposition
  pub missing : b.missing_before ≡ a.missing_before
  pub duplicate : b.duplicate ≡ a.duplicate
  pub conflict : b.conflict ≡ a.conflict

-- The receipt of an accepted packet, from which its result is read back.
pub record Readable (i : Uuid) (r : PacketAcceptanceResult) (db : Db) : Type 0 where
  pub receipt : TelemetryDeliveryReceipt
  pub found : get_receipt i db ≡ some receipt
  pub status : receipt.validation_status ≡ DeliveryValidationStatus.accepted
  pub same : SameAcceptance r (earlier_result receipt false db)

abbrev WhereAccepted : Uuid → PacketAcceptanceResult × Db → Type 0
WhereAccepted i q = q.0.validation_status ≡ DeliveryValidationStatus.accepted → Readable i q.0 q.1

insert_packet-found :
    (p : LogicalTelemetryPacket) (db : Db)
    → OnOk
        (λ db'. (get_packet p.packet_id db' ≡ some p) × (db'.receipts ≡ db.receipts))
        (insert_packet p db)
unfolding find
insert_packet-found p db = ground (arith, bytes_eq_iff p.packet_id p.packet_id)

record_sequence-rest :
    (state : Option TelemetrySequenceState) (v : DecodedTelemetryValues) (d : SequenceDisposition)
    (missing : ℤ) (now : Instant) (db : Db)
    → OnOk
        (λ db'. (db'.packets ≡ db.packets) × (db'.receipts ≡ db.receipts))
        (record_sequence state v d missing now db)
unfolding record_sequence
record_sequence-rest none v d missing now db = ground arith
record_sequence-rest (some state) v d missing now db = (refl, refl)

insert_job-found :
    (j : TelemetryProcessingJob) (db : Db)
    → OnOk
        (λ db'.
          (get_job_for_packet j.packet_id db' ≡ some j)
          × (db'.packets ≡ db.packets)
          × (db'.receipts ≡ db.receipts))
        (insert_job j db)
unfolding find
insert_job-found j db = ground (arith, bytes_eq_iff j.packet_id j.packet_id)

abbrev receipt_key : TelemetryDeliveryReceipt → ℕ
receipt_key r = r.receipt_id

store_packet-Readable :
    (i : Uuid) (r : TelemetryDeliveryReceipt) (v : DecodedTelemetryValues)
    (state : Option TelemetrySequenceState) (d : SequenceDisposition) (missing : ℤ) (job : Uuid)
    (most : ℕ) (actor : String) (now : Instant) (db : Db)
    → get_receipt i db ≡ some r
    → OnOk (WhereAccepted i) (store_packet r v state d missing job most actor now db)
unfolding store_packet
store_packet-Readable i r v state d missing job most actor now db found =
    let packet = new_packet r v d missing now in
    let work = new_job job (values_packet_id v) most now in
    let changed = accepted_receipt r v now in
    OnOk-bind (WhereAccepted i) (insert_packet packet db) _ λ db₁ e₁.
      OnOk-bind (WhereAccepted i) (record_sequence state v d missing now db₁) _ λ db₂ e₂.
        OnOk-bind (WhereAccepted i) (insert_job work db₂) _ λ db₃ e₃ accepted.
          let (packet₁, receipts₁) =
            OnOk-apply
              (λ x. (get_packet packet.packet_id x ≡ some packet) × (x.receipts ≡ db.receipts)) _
              (insert_packet-found packet db) e₁ in
          let (packets₂, receipts₂) =
            OnOk-apply (λ x. (x.packets ≡ db₁.packets) × (x.receipts ≡ db₁.receipts)) _
              (record_sequence-rest state v d missing now db₁) e₂ in
          let (job₃, packets₃, receipts₃) =
            OnOk-apply
              (λ x.
                (get_job_for_packet work.packet_id x ≡ some work)
                × (x.packets ≡ db₂.packets)
                × (x.receipts ≡ db₂.receipts))
              _ (insert_job-found work db₂) e₃ in
          let there : get_packet packet.packet_id db₃ ≡ some packet =
            ap (λ ps. find (packet_is packet.packet_id) ps) (packets₃ ∙ packets₂) ∙ packet₁ in
          let under : r.receipt_id ≡ i = row-key receipt_key i r db.receipts found in
          let before : get_receipt changed.receipt_id db₃ ≡ some r =
            ap (λ rs. find (receipt_is r.receipt_id) rs) (receipts₃ ∙ (receipts₂ ∙ receipts₁))
            ∙ subst (λ k. get_receipt k db ≡ some r) (sym under) found in
          record {
            receipt = changed;
            found =
                subst (λ k. get_receipt k (save_receipt changed db₃) ≡ some changed) under
                  (row-put_self receipt_key changed r db₃.receipts before);
            status = refl;
            same =
                unfold earlier_result in
                rw (there, job₃)
                  (record {
                    receipt = refl;
                    packet = refl;
                    job = refl;
                    status = refl;
                    queue = refl;
                    disposition = refl;
                    missing = refl;
                    duplicate = refl;
                    conflict = refl;
                  });
          }

accept_placed-Readable :
    (i : Uuid) (o : Option (SequenceDisposition × ℤ)) (r : TelemetryDeliveryReceipt)
    (v : DecodedTelemetryValues) (state : Option TelemetrySequenceState) (job : Uuid) (most : ℕ)
    (actor : String) (now : Instant) (db : Db)
    → get_receipt i db ≡ some r
    → OnOk (WhereAccepted i) (accept_placed o r v state job most actor now db)
unfolding accept_placed state_conflict
accept_placed-Readable i none r v state job most actor now db found = λ h. cc
accept_placed-Readable i (some (d, missing)) r v state job most actor now db found =
    store_packet-Readable i r v state d missing job most actor now db found

accept_existing_status :
    (r : TelemetryDeliveryReceipt) (p : LogicalTelemetryPacket) (v : DecodedTelemetryValues)
    (actor : String) (now : Instant) (db : Db)
    → (accept_existing r p v actor now db).0.validation_status ≢ DeliveryValidationStatus.accepted
unfolding accept_existing accept_duplicate accept_conflict
accept_existing_status r p v actor now db h = ground arith

accept_found-Readable :
    (i : Uuid) (o : Option LogicalTelemetryPacket) (r : TelemetryDeliveryReceipt)
    (v : DecodedTelemetryValues) (job : Uuid) (most : ℕ) (actor : String) (now : Instant) (db : Db)
    → get_receipt i db ≡ some r
    → OnOk (WhereAccepted i) (accept_found o r v job most actor now db)
unfolding accept_found
accept_found-Readable i none r v job most actor now db found =
    unfold accept_new in
    let state = find (sequence_is v.payload_id v.boot_id) db.sequences in
    accept_placed-Readable i (place state v.sequence_number) r v state job most actor now db found
accept_found-Readable i (some existing) r v job most actor now db found =
    λ h. absurd (accept_existing_status r existing v actor now db h)

accept_by_status-Readable :
    (i : Uuid) (s : DeliveryValidationStatus) (r : TelemetryDeliveryReceipt)
    (v : DecodedTelemetryValues) (job : Uuid) (most : ℕ) (actor : String) (now : Instant) (db : Db)
    → get_receipt i db ≡ some r
    → r.validation_status ≡ s
    → OnOk (WhereAccepted i) (accept_by_status s r v job most actor now db)
unfolding accept_by_status
accept_by_status-Readable i DeliveryValidationStatus.accepted r v job most actor now db found e =
    λ h. record {
      receipt = r;
      found = found;
      status = e;
      same = record {
        receipt = refl;
        packet = refl;
        job = refl;
        status = refl;
        queue = refl;
        disposition = refl;
        missing = refl;
        duplicate = refl;
        conflict = refl;
      };
    }
accept_by_status-Readable i DeliveryValidationStatus.duplicate r v job most actor now db found e =
    unfold earlier_result in λ h. cc (e, h)
accept_by_status-Readable i DeliveryValidationStatus.pending r v job most actor now db found e =
    unfold accept_pending in
    accept_found-Readable i
      (find (packet_has_key v.payload_id v.boot_id v.sequence_number) db.packets) r v job most actor
      now db found
accept_by_status-Readable i _ r v job most actor now db found e = tt

accept_packet-Readable :
    (i : Uuid) (v : DecodedTelemetryValues) (job : Uuid) (most : ℕ) (actor : String) (now : Instant)
    (db : Db)
    → OnOk (WhereAccepted i) (accept_packet_transaction i v job most actor now db)
unfolding accept_packet_transaction
accept_packet-Readable i v job most actor now db =
    OnOk-bind (WhereAccepted i) (or_raise (get_receipt i db) delivery_not_found) _ λ r found.
      accept_by_status-Readable i r.validation_status r v job most actor now db
        (or_raise-eq-ok _ _ found) refl

reads_back :
    (i : Uuid) (r : TelemetryDeliveryReceipt) (v : DecodedTelemetryValues) (job : Uuid) (most : ℕ)
    (actor : String) (now : Instant) (db : Db)
    → get_receipt i db ≡ some r
    → r.validation_status ≡ DeliveryValidationStatus.accepted
    → accept_packet_transaction i v job most actor now db ≡ ok (earlier_result r false db, db)
unfolding accept_packet_transaction
reads_back i r v job most actor now db found e =
    ap
      (λ o. or_raise o delivery_not_found >>= λ x.
        accept_by_status x.validation_status x v job most actor now db)
      found
    ∙ (unfold accept_by_status in ap (λ s. accept_by_status s r v job most actor now db) e)

-- Once a packet has been accepted from a receipt, a second acceptance of the receipt, whatever
-- values, job identifier and attempt limit it brings, returns the same packet, job, statuses,
-- disposition and missing count, and changes nothing.
pub accept_packet_transaction-replay :
    (i : Uuid) (v w : DecodedTelemetryValues) (job other : Uuid) (most limit : ℕ)
    (actor again : String) (now later : Instant) (r : PacketAcceptanceResult) (db db' : Db)
    → accept_packet_transaction i v job most actor now db ≡ ok (r, db')
    → r.validation_status ≡ DeliveryValidationStatus.accepted
    → Ensures
        (λ q. SameAcceptance r q.0 × (q.1 ≡ db'))
        (accept_packet_transaction i w other limit again later db')
accept_packet_transaction-replay i v w job other most limit actor again now later r db db' h
      accepted =
    let c : Readable i r db' =
      OnOk-apply (WhereAccepted i) _ (accept_packet-Readable i v job most actor now db) h
        accepted in
    subst (λ m. Ensures (λ q. SameAcceptance r q.0 × (q.1 ≡ db')) m)
      (sym (reads_back i c.receipt w other limit again later db' c.found c.status)) (c.same, refl)
