-- ===== src/Telemetry/Storage/History/Evidence.antt =====
-- The raw evidence in the receipts, under deliveries, rejections and repeats.
use cislunar_ground_platform.Base.{
  ℕ, true, false, not, ◌&&◌, Option, none, some, ◌∷◌, String, ok, raise_if, or_raise,
  or_raise-eq-ok, OnOk, OnOk-if, if_elim, bytes_eq, OnOk-bind, OnOk-apply, ◌≡◌, refl, sym, ◌∙◌,
  subst, arith,
}
use cislunar_ground_platform.Std.Hashlib.{sha256_hexdigest}
use cislunar_ground_platform.Telemetry.Storage.Records.{
  Uuid, Instant, Json, TelemetryDeliveryReceipt, DeliveryValidationStatus, storage_error,
  delivery_not_found, invalid_delivery_state, DeliveryRecordResult, TelemetryRequestIdentity,
  LogicalTelemetryPacket, DecodedTelemetryValues,
}
use cislunar_ground_platform.Telemetry.Storage.Tables.{
  Db, find, is_some, get_receipt, save_receipt, insert_receipt, identity_is,
}
use cislunar_ground_platform.Telemetry.Storage.Tables.Rows.{
  Keeps, Keeps-refl, Keeps-cons, Keeps-put, row-key,
}
use cislunar_ground_platform.Telemetry.Storage.Repeats.{
  duplicate_receipt, conflict_receipt, accept_duplicate, accept_conflict, accept_existing,
  is_exact_duplicate,
}
use cislunar_ground_platform.Telemetry.Storage.Deliveries.{
  Delivery, delivery_result, new_receipt, store_receipt, repeat_delivery, record_known, record_for,
  record_attempt, record_identity, rejected_receipt, reason_is, reject_by_status, reject_delivery,
}

-- What of a receipt is evidence.
pub record SameEvidence (r s : TelemetryDeliveryReceipt) : Type 0 where
  pub raw : s.raw_body ≡ r.raw_body
  pub size : s.raw_body_size ≡ r.raw_body_size
  pub digest : s.body_sha256 ≡ r.body_sha256
  pub time : s.received_at ≡ r.received_at

abbrev pub receipt_key : TelemetryDeliveryReceipt → ℕ
receipt_key r = r.receipt_id

-- Every receipt of the first database is in the second with the same evidence.
abbrev pub KeepsEvidence : Db → Db → Type 0
KeepsEvidence db db' = Keeps receipt_key SameEvidence db.receipts db'.receipts

pub SameEvidence-refl : (r : TelemetryDeliveryReceipt) → SameEvidence r r
SameEvidence-refl r = record { raw = refl; size = refl; digest = refl; time = refl }

-- The receipts are untouched.
pub same_receipts : (db db' : Db) → db'.receipts ≡ db.receipts → KeepsEvidence db db'
same_receipts db db' e =
    subst (λ rs. Keeps receipt_key SameEvidence db.receipts rs) (sym e)
      (Keeps-refl receipt_key SameEvidence db.receipts SameEvidence-refl)

pub record_identity_receipts :
    (request : Option Uuid) (first : Option TelemetryDeliveryReceipt)
    (receipt : TelemetryDeliveryReceipt) (db : Db)
    → OnOk (λ db'. db'.receipts ≡ db.receipts) (record_identity request first receipt db)
unfolding record_identity
record_identity_receipts none first receipt db = refl
record_identity_receipts (some i) (some f) receipt db = refl
record_identity_receipts (some i) none receipt db = ground arith

inserted_receipts :
    (r : TelemetryDeliveryReceipt) (db db' : Db)
    → insert_receipt r db ≡ ok db'
    → db'.receipts ≡ r ∷ db.receipts
inserted_receipts r db db' h = ground arith

inserted_new :
    (r : TelemetryDeliveryReceipt) (db db' : Db)
    → insert_receipt r db ≡ ok db'
    → is_some (get_receipt r.receipt_id db) ≡ false
inserted_new r db db' h = ground arith

store_receipt-KeepsEvidence :
    (d : Delivery) (fresh : Uuid) (now : Instant) (first : Option TelemetryDeliveryReceipt)
    (db : Db)
    → OnOk (λ q. KeepsEvidence db q.1) (store_receipt d fresh now first db)
unfolding store_receipt
store_receipt-KeepsEvidence d fresh now first db =
    let receipt = new_receipt d fresh now first in
    OnOk-bind (λ q. KeepsEvidence db q.1) (insert_receipt receipt db) _
      λ db₁ inserted.
        OnOk-bind (λ q. KeepsEvidence db q.1)
          (record_identity d.canonical_request_id first receipt db₁) _
          λ db₂ identified.
            let same : db₂.receipts ≡ db₁.receipts =
              OnOk-apply (λ x. x.receipts ≡ db₁.receipts) _
                (record_identity_receipts d.canonical_request_id first receipt db₁) identified in
            subst (λ rs. Keeps receipt_key SameEvidence db.receipts rs)
              (sym (same ∙ inserted_receipts receipt db db₁ inserted))
              (Keeps-cons receipt_key SameEvidence receipt db.receipts SameEvidence-refl
                (inserted_new receipt db db₁ inserted))

pub saved-KeepsEvidence :
    (r s : TelemetryDeliveryReceipt) (db : Db)
    → get_receipt s.receipt_id db ≡ some r
    → SameEvidence r s
    → KeepsEvidence db (save_receipt s db)
saved-KeepsEvidence r s db found same =
    Keeps-put receipt_key SameEvidence s r db.receipts SameEvidence-refl found same

pub unchanged-KeepsEvidence : (db : Db) → KeepsEvidence db db
unchanged-KeepsEvidence db = same_receipts db db refl

repeat_delivery-KeepsEvidence :
    (d : Delivery) (fresh : Uuid) (now : Instant) (identity : TelemetryRequestIdentity) (db : Db)
    → OnOk (λ q. KeepsEvidence db q.1) (repeat_delivery d fresh now identity db)
repeat_delivery-KeepsEvidence d fresh now identity db =
    unfold repeat_delivery in
    OnOk-bind (λ q. KeepsEvidence db q.1)
      (or_raise (get_receipt identity.first_receipt_id db) storage_error) _
      λ first found.
        OnOk-if (λ q. KeepsEvidence db q.1)
          (bytes_eq identity.body_sha256 (sha256_hexdigest d.raw_body)
            && bytes_eq first.raw_body d.raw_body)
          (ok (delivery_result first true false, db)) (store_receipt d fresh now (some first) db)
          (unchanged-KeepsEvidence db) (store_receipt-KeepsEvidence d fresh now (some first) db)

record_known-KeepsEvidence :
    (d : Delivery) (fresh : Uuid) (now : Instant) (known : Option TelemetryRequestIdentity)
    (db : Db)
    → OnOk (λ q. KeepsEvidence db q.1) (record_known d fresh now known db)
unfolding record_known
record_known-KeepsEvidence d fresh now none db = store_receipt-KeepsEvidence d fresh now none db
record_known-KeepsEvidence d fresh now (some identity) db =
    repeat_delivery-KeepsEvidence d fresh now identity db

record_for-KeepsEvidence :
    (request : Option Uuid) (d : Delivery) (fresh : Uuid) (now : Instant) (db : Db)
    → OnOk (λ q. KeepsEvidence db q.1) (record_for request d fresh now db)
unfolding record_for
record_for-KeepsEvidence none d fresh now db = store_receipt-KeepsEvidence d fresh now none db
record_for-KeepsEvidence (some i) d fresh now db =
    record_known-KeepsEvidence d fresh now (find (identity_is i) db.identities) db

pub record_attempt-KeepsEvidence :
    (d : Delivery) (fresh : Uuid) (now : Instant) (db : Db)
    → OnOk (λ q. KeepsEvidence db q.1) (record_attempt d fresh now db)
record_attempt-KeepsEvidence d fresh now db =
    unfold record_attempt in record_for-KeepsEvidence d.canonical_request_id d fresh now db

reject_by_status-KeepsEvidence :
    (s : DeliveryValidationStatus) (r : TelemetryDeliveryReceipt) (reason : String)
    (parsed : Option Json) (actor : String) (now : Instant) (db : Db)
    → get_receipt r.receipt_id db ≡ some r
    → OnOk (λ q. KeepsEvidence db q.1) (reject_by_status s r reason parsed actor now db)
unfolding reject_by_status
reject_by_status-KeepsEvidence DeliveryValidationStatus.rejected r reason parsed actor now db h =
    OnOk-bind (λ (q : DeliveryRecordResult × Db). KeepsEvidence db q.1)
      (raise_if (not (reason_is reason r.rejection_reason)) invalid_delivery_state)
      (λ _. ok (delivery_result r true false, db)) λ u checked. unchanged-KeepsEvidence db
reject_by_status-KeepsEvidence DeliveryValidationStatus.pending r reason parsed actor now db h =
    saved-KeepsEvidence r (rejected_receipt r reason parsed now) db h
      (record { raw = refl; size = refl; digest = refl; time = refl })
reject_by_status-KeepsEvidence _ r reason parsed actor now db h = tt

-- The row that a lookup found is found under its own identifier.
pub own_row :
    (i : Uuid) (r : TelemetryDeliveryReceipt) (db : Db)
    → get_receipt i db ≡ some r
    → get_receipt r.receipt_id db ≡ some r
own_row i r db h =
    subst (λ k. get_receipt k db ≡ some r) (sym (row-key receipt_key i r db.receipts h)) h

pub reject_delivery-KeepsEvidence :
    (i : Uuid) (reason : String) (parsed : Option Json) (actor : String) (now : Instant) (db : Db)
    → OnOk (λ q. KeepsEvidence db q.1) (reject_delivery i reason parsed actor now db)
unfolding reject_delivery
reject_delivery-KeepsEvidence i reason parsed actor now db =
    OnOk-bind (λ q. KeepsEvidence db q.1) (or_raise (get_receipt i db) delivery_not_found) _
      λ r found.
        reject_by_status-KeepsEvidence r.validation_status r reason parsed actor now db
          (own_row i r db (or_raise-eq-ok _ _ found))

pub accept_existing-KeepsEvidence :
    (r : TelemetryDeliveryReceipt) (p : LogicalTelemetryPacket) (v : DecodedTelemetryValues)
    (actor : String) (now : Instant) (db : Db)
    → get_receipt r.receipt_id db ≡ some r
    → KeepsEvidence db (accept_existing r p v actor now db).1
unfolding accept_existing
accept_existing-KeepsEvidence r p v actor now db h =
    if_elim (λ q. KeepsEvidence db q.1) (is_exact_duplicate r p db)
      (accept_duplicate r p v actor now db) (accept_conflict r p v actor now db)
      (unfold accept_duplicate in
        saved-KeepsEvidence r (duplicate_receipt r p v now) db h
          (record { raw = refl; size = refl; digest = refl; time = refl }))
      (unfold accept_conflict in
        saved-KeepsEvidence r (conflict_receipt r p v now) db h
          (record { raw = refl; size = refl; digest = refl; time = refl }))
