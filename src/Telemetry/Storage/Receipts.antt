-- ===== src/Telemetry/Storage/Receipts.antt =====
-- storage.py: the results of `record_delivery`, `reject_delivery` and the acceptance name the receipt
-- that they are about.
use cislunar_ground_platform.Base.{
  OnOk-apply, ℕ, Bool, true, false, Option, none, some, Bytes, bytes_eq, bytes_eq→eq, String, OnOk,
  OnOk-bind, or_raise, or_raise-eq-ok, raise_if, not, ◌&&◌, ◌≡◌, refl, sym, ap, ◌∙◌, subst, arith,
  inl, inr, Bool-cases,
}
use cislunar_ground_platform.Base.Int.{ℤ}
use cislunar_ground_platform.Std.Hashlib.{sha256_hexdigest}
use cislunar_ground_platform.Telemetry.Storage.Records.{
  Uuid, Instant, Json, DeliveryValidationStatus, SequenceDisposition, TelemetryDeliveryReceipt,
  TelemetryRequestIdentity, LogicalTelemetryPacket, TelemetrySequenceState, DecodedTelemetryValues,
  DeliveryRecordResult, PacketAcceptanceResult, storage_error, delivery_not_found,
  invalid_delivery_state,
}
use cislunar_ground_platform.Telemetry.Storage.Tables.{
  Db, find, receipt_is, identity_is, packet_has_key, sequence_is, get_receipt, insert_receipt,
  insert_packet, insert_job,
}
use cislunar_ground_platform.Telemetry.Storage.Tables.Rows.{row-key}
use cislunar_ground_platform.Telemetry.Storage.Deliveries.{
  Delivery, new_receipt, record_identity, store_receipt, repeat_delivery, record_known, record_for,
  record_attempt, reject_by_status, reject_delivery, reason_is,
}
use cislunar_ground_platform.Telemetry.Storage.Repeats.{
  accept_existing, accept_duplicate, accept_conflict, earlier_result, values_packet_id,
}
use cislunar_ground_platform.Telemetry.Storage.Acceptance.{
  new_packet, new_job, place, record_sequence, store_packet, state_conflict, accept_placed,
  accept_new, accept_found, accept_pending, accept_by_status, accept_packet_transaction,
}
use cislunar_ground_platform.Telemetry.Storage.History.Evidence.{record_identity_receipts}

-- A receipt is kept under its identifier.
receipt_id-found :
    (i : Uuid) (r : TelemetryDeliveryReceipt) (db : Db)
    → get_receipt i db ≡ some r
    → r.receipt_id ≡ i
receipt_id-found i r db found = row-key (λ x. x.receipt_id) i r db.receipts found

-- The receipt of a recorded delivery holds the bytes of the delivery.
abbrev pub Saved : Bytes → DeliveryRecordResult × Db → Type 0
Saved body q =
    (receipt : TelemetryDeliveryReceipt) × (get_receipt q.0.receipt_id q.1 ≡ some receipt)
    × (receipt.raw_body ≡ body)

insert_receipt-saved :
    (x : TelemetryDeliveryReceipt) (db : Db)
    → OnOk (λ db'. get_receipt x.receipt_id db' ≡ some x) (insert_receipt x db)
unfolding find
insert_receipt-saved x db = ground arith

store_receipt-Saved :
    (d : Delivery) (fresh : Uuid) (now : Instant) (first : Option TelemetryDeliveryReceipt)
    (db : Db)
    → OnOk (Saved d.raw_body) (store_receipt d fresh now first db)
unfolding store_receipt
store_receipt-Saved d fresh now first db =
    let receipt = new_receipt d fresh now first in
    OnOk-bind (Saved d.raw_body) (insert_receipt receipt db) _ λ db₁ e₁.
      OnOk-bind (Saved d.raw_body) (record_identity d.canonical_request_id first receipt db₁) _
        λ db₂ e₂. (
          receipt,
          ap (λ rs. find (receipt_is receipt.receipt_id) rs)
                (OnOk-apply (λ x. x.receipts ≡ db₁.receipts) _
                  (record_identity_receipts d.canonical_request_id first receipt db₁) e₂)
              ∙ OnOk-apply (λ x. get_receipt receipt.receipt_id x ≡ some receipt) _
                  (insert_receipt-saved receipt db) e₁,
          refl,
        )

same_body : (a b : Bool) (xs ys : Bytes) → (a && bytes_eq xs ys) ≡ true → xs ≡ ys
same_body true b xs ys h = bytes_eq→eq xs ys h
same_body false b xs ys h = cc

repeat_delivery-Saved :
    (d : Delivery) (fresh : Uuid) (now : Instant) (identity : TelemetryRequestIdentity) (db : Db)
    → OnOk (Saved d.raw_body) (repeat_delivery d fresh now identity db)
unfolding repeat_delivery
repeat_delivery-Saved d fresh now identity db =
    OnOk-bind (Saved d.raw_body) (or_raise (get_receipt identity.first_receipt_id db) storage_error)
      _
      λ first found.
        let there : get_receipt identity.first_receipt_id db ≡ some first =
          or_raise-eq-ok _ _ found in
        let digest = bytes_eq identity.body_sha256 (sha256_hexdigest d.raw_body) in
        elim (Bool-cases (digest && bytes_eq first.raw_body d.raw_body)) [
          | inl same ↦ rw same (
            first,
            subst (λ i. get_receipt i db ≡ some first)
                (sym (receipt_id-found identity.first_receipt_id first db there)) there,
            same_body digest digest first.raw_body d.raw_body same,
          )
          | inr other ↦ rw other (store_receipt-Saved d fresh now (some first) db)
        ]

record_known-Saved :
    (d : Delivery) (fresh : Uuid) (now : Instant) (o : Option TelemetryRequestIdentity) (db : Db)
    → OnOk (Saved d.raw_body) (record_known d fresh now o db)
unfolding record_known
record_known-Saved d fresh now none db = store_receipt-Saved d fresh now none db
record_known-Saved d fresh now (some identity) db = repeat_delivery-Saved d fresh now identity db

record_for-Saved :
    (d : Delivery) (fresh : Uuid) (now : Instant) (o : Option Uuid) (db : Db)
    → OnOk (Saved d.raw_body) (record_for o d fresh now db)
unfolding record_for
record_for-Saved d fresh now none db = store_receipt-Saved d fresh now none db
record_for-Saved d fresh now (some q) db =
    record_known-Saved d fresh now (find (identity_is q) db.identities) db

pub record_attempt-Saved :
    (d : Delivery) (fresh : Uuid) (now : Instant) (db : Db)
    → OnOk (Saved d.raw_body) (record_attempt d fresh now db)
unfolding record_attempt
record_attempt-Saved d fresh now db = record_for-Saved d fresh now d.canonical_request_id db

abbrev pub RejectsOwn : Uuid → DeliveryRecordResult × Db → Type 0
RejectsOwn i q = q.0.receipt_id ≡ i

reject_by_status-Own :
    (s : DeliveryValidationStatus) (r : TelemetryDeliveryReceipt) (reason : String)
    (parsed : Option Json) (actor : String) (now : Instant) (db : Db)
    → OnOk (RejectsOwn r.receipt_id) (reject_by_status s r reason parsed actor now db)
unfolding reject_by_status
reject_by_status-Own DeliveryValidationStatus.rejected r reason parsed actor now db =
    OnOk-bind (RejectsOwn r.receipt_id)
      (raise_if (not (reason_is reason r.rejection_reason)) invalid_delivery_state) _
      λ u passed. refl
reject_by_status-Own DeliveryValidationStatus.pending r reason parsed actor now db = refl
reject_by_status-Own _ r reason parsed actor now db = tt

pub reject_delivery-Own :
    (i : Uuid) (reason : String) (parsed : Option Json) (actor : String) (now : Instant) (db : Db)
    → OnOk (RejectsOwn i) (reject_delivery i reason parsed actor now db)
unfolding reject_delivery
reject_delivery-Own i reason parsed actor now db =
    OnOk-bind (RejectsOwn i) (or_raise (get_receipt i db) delivery_not_found) _ λ r found.
      subst
        (λ k.
          OnOk (RejectsOwn k) (reject_by_status r.validation_status r reason parsed actor now db))
        (receipt_id-found i r db (or_raise-eq-ok _ _ found))
        (reject_by_status-Own r.validation_status r reason parsed actor now db)

abbrev pub AcceptsOwn : Uuid → PacketAcceptanceResult × Db → Type 0
AcceptsOwn i q = q.0.receipt_id ≡ i

store_packet-Own :
    (r : TelemetryDeliveryReceipt) (v : DecodedTelemetryValues)
    (state : Option TelemetrySequenceState) (disposition : SequenceDisposition) (missing : ℤ)
    (job : Uuid) (most : ℕ) (actor : String) (now : Instant) (db : Db)
    → OnOk
        (AcceptsOwn r.receipt_id)
        (store_packet r v state disposition missing job most actor now db)
unfolding store_packet
store_packet-Own r v state disposition missing job most actor now db =
    OnOk-bind (AcceptsOwn r.receipt_id) (insert_packet (new_packet r v disposition missing now) db)
      _
      λ a e.
        OnOk-bind (AcceptsOwn r.receipt_id) (record_sequence state v disposition missing now a) _
          λ b f.
            OnOk-bind (AcceptsOwn r.receipt_id)
              (insert_job (new_job job (values_packet_id v) most now) b) _ λ c g. refl

accept_placed-Own :
    (o : Option (SequenceDisposition × ℤ)) (r : TelemetryDeliveryReceipt)
    (v : DecodedTelemetryValues) (state : Option TelemetrySequenceState) (job : Uuid) (most : ℕ)
    (actor : String) (now : Instant) (db : Db)
    → OnOk (AcceptsOwn r.receipt_id) (accept_placed o r v state job most actor now db)
unfolding accept_placed state_conflict
accept_placed-Own none r v state job most actor now db = refl
accept_placed-Own (some (d, missing)) r v state job most actor now db =
    store_packet-Own r v state d missing job most actor now db

accept_existing-Own :
    (r : TelemetryDeliveryReceipt) (p : LogicalTelemetryPacket) (v : DecodedTelemetryValues)
    (actor : String) (now : Instant) (db : Db)
    → AcceptsOwn r.receipt_id (accept_existing r p v actor now db)
unfolding accept_existing accept_duplicate accept_conflict
accept_existing-Own r p v actor now db = ground arith

accept_found-Own :
    (o : Option LogicalTelemetryPacket) (r : TelemetryDeliveryReceipt) (v : DecodedTelemetryValues)
    (job : Uuid) (most : ℕ) (actor : String) (now : Instant) (db : Db)
    → OnOk (AcceptsOwn r.receipt_id) (accept_found o r v job most actor now db)
unfolding accept_found accept_new
accept_found-Own none r v job most actor now db =
    let state = find (sequence_is v.payload_id v.boot_id) db.sequences in
    accept_placed-Own (place state v.sequence_number) r v state job most actor now db
accept_found-Own (some p) r v job most actor now db = accept_existing-Own r p v actor now db

accept_by_status-Own :
    (s : DeliveryValidationStatus) (r : TelemetryDeliveryReceipt) (v : DecodedTelemetryValues)
    (job : Uuid) (most : ℕ) (actor : String) (now : Instant) (db : Db)
    → OnOk (AcceptsOwn r.receipt_id) (accept_by_status s r v job most actor now db)
unfolding accept_by_status earlier_result accept_pending
accept_by_status-Own DeliveryValidationStatus.accepted r v job most actor now db = refl
accept_by_status-Own DeliveryValidationStatus.duplicate r v job most actor now db = refl
accept_by_status-Own DeliveryValidationStatus.pending r v job most actor now db =
    accept_found-Own (find (packet_has_key v.payload_id v.boot_id v.sequence_number) db.packets) r v
      job most actor now db
accept_by_status-Own _ r v job most actor now db = tt

pub accept_packet-Own :
    (i : Uuid) (v : DecodedTelemetryValues) (job : Uuid) (most : ℕ) (actor : String) (now : Instant)
    (db : Db)
    → OnOk (AcceptsOwn i) (accept_packet_transaction i v job most actor now db)
unfolding accept_packet_transaction
accept_packet-Own i v job most actor now db =
    OnOk-bind (AcceptsOwn i) (or_raise (get_receipt i db) delivery_not_found) _ λ r found.
      subst
        (λ k. OnOk (AcceptsOwn k) (accept_by_status r.validation_status r v job most actor now db))
        (receipt_id-found i r db (or_raise-eq-ok _ _ found))
        (accept_by_status-Own r.validation_status r v job most actor now db)
