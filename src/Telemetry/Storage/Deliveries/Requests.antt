-- ===== src/Telemetry/Storage/Deliveries/Requests.antt =====
-- Deliveries under one request identifier.
use cislunar_ground_platform.Base.{
  length, ◌∷◌, ==_iff, true, false, Option, none, some, bytes_eq, bytes_eq_iff, Bool-cases, ok,
  Ensures, OnOk, OnOk-bind, OnOk-apply, ◌≡◌, ◌≢◌, refl, sym, ap, ◌∙◌, subst, arith, inl, inr,
}
use cislunar_ground_platform.Std.Hashlib.{sha256_hexdigest}
use cislunar_ground_platform.Telemetry.Storage.Records.{
  Uuid, Instant, DeliveryQueueStatus, DeliveryValidationStatus, TelemetryDeliveryReceipt,
  TelemetryRequestIdentity, DeliveryRecordResult,
}
use cislunar_ground_platform.Telemetry.Storage.Tables.{
  Db, find, is_some, identity_is, receipt_is, get_receipt, insert_receipt, insert_identity,
}
use cislunar_ground_platform.Telemetry.Storage.Deliveries.{
  Delivery, delivery_result, new_receipt, new_identity, record_identity, store_receipt,
  repeat_delivery, record_known, record_for, record_attempt,
}

-- What the first delivery under a request identifier leaves.
pub record Owned (q : Uuid) (d : Delivery) (r : DeliveryRecordResult) (db : Db) : Type 0 where
  pub identity : TelemetryRequestIdentity
  pub first : TelemetryDeliveryReceipt
  pub known : find (identity_is q) db.identities ≡ some identity
  pub found : get_receipt identity.first_receipt_id db ≡ some first
  pub digest : identity.body_sha256 ≡ sha256_hexdigest d.raw_body
  pub body : first.raw_body ≡ d.raw_body
  pub result : r ≡ delivery_result first false false

insert_identity-rows :
    (x : TelemetryRequestIdentity) (db : Db)
    → OnOk
        (λ db'.
          (find (identity_is x.request_id) db'.identities ≡ some x) × (db'.receipts ≡ db.receipts))
        (insert_identity x db)
unfolding find
insert_identity-rows x db = ground arith

insert_receipt-found :
    (x : TelemetryDeliveryReceipt) (db : Db)
    → OnOk
        (λ db'. (get_receipt x.receipt_id db' ≡ some x) × (db'.identities ≡ db.identities))
        (insert_receipt x db)
unfolding find
insert_receipt-found x db = ground arith

store_receipt-Owned :
    (q : Uuid) (request : Option Uuid) (d : Delivery) (fresh : Uuid) (now : Instant) (db : Db)
    → d.canonical_request_id ≡ some q
    → OnOk (λ p. Owned q d p.0 p.1) (store_receipt d fresh now none db)
unfolding store_receipt record_identity
store_receipt-Owned q request d fresh now db e =
    let receipt = new_receipt d fresh now none in
    OnOk-bind (λ p. Owned q d p.0 p.1) (insert_receipt receipt db) _
      λ db₁ e₁.
        OnOk-bind (λ p. Owned q d p.0 p.1) (record_identity d.canonical_request_id none receipt db₁)
          _
          λ db₂ e₂.
            let (there, same) =
              OnOk-apply
                (λ x.
                  (get_receipt receipt.receipt_id x ≡ some receipt)
                  × (x.identities ≡ db.identities))
                _ (insert_receipt-found receipt db) e₁ in
            let identified : insert_identity (new_identity receipt q) db₁ ≡ ok db₂ =
              subst (λ o. record_identity o none receipt db₁ ≡ ok db₂) e e₂ in
            let (known, kept) =
              OnOk-apply
                (λ x.
                  (find (identity_is q) x.identities ≡ some (new_identity receipt q))
                  × (x.receipts ≡ db₁.receipts))
                _ (insert_identity-rows (new_identity receipt q) db₁) identified in
            record {
              identity = new_identity receipt q;
              first = receipt;
              known = known;
              found = ap (λ rs. find (receipt_is receipt.receipt_id) rs) kept ∙ there;
              digest = refl;
              body = refl;
              result = refl;
            }

first_record-Owned :
    (q : Uuid) (d : Delivery) (fresh : Uuid) (now : Instant) (r : DeliveryRecordResult)
    (db db' : Db)
    → d.canonical_request_id ≡ some q
    → find (identity_is q) db.identities ≡ none
    → record_attempt d fresh now db ≡ ok (r, db')
    → Owned q d r db'
unfolding record_attempt record_for record_known
first_record-Owned q d fresh now r db db' e new h =
    let named : record_for (some q) d fresh now db ≡ ok (r, db') =
      subst (λ o. record_for o d fresh now db ≡ ok (r, db')) e h in
    let stored : store_receipt d fresh now none db ≡ ok (r, db') =
      subst (λ o. record_known d fresh now o db ≡ ok (r, db')) new named in
    OnOk-apply (λ p. Owned q d p.0 p.1) _ (store_receipt-Owned q (some q) d fresh now db e) stored

-- The receipt of a delivery under an identifier that another body owns: the delivery's own bytes, as
-- a conflict with the first receipt.
pub record IsConflict (e : Delivery) (first : Uuid) (receipt : TelemetryDeliveryReceipt)
    : Type 0 where
  pub body : receipt.raw_body ≡ e.raw_body
  pub size : receipt.raw_body_size ≡ length e.raw_body
  pub digest : receipt.body_sha256 ≡ sha256_hexdigest e.raw_body
  pub peer : receipt.peer_certificate_identity ≡ e.peer_certificate_identity
  pub status : receipt.validation_status ≡ DeliveryValidationStatus.conflict
  pub reason : receipt.rejection_reason ≡ some "REQUEST_ID_REUSED_WITH_DIFFERENT_BODY"
  pub duplicate_of : receipt.duplicate_of_receipt_id ≡ some first
  pub queue : receipt.queue_status ≡ DeliveryQueueStatus.not_applicable

-- What the second delivery under an identifier gives where its body differs: a new receipt beside the
-- others, found under the identifier that the result names.
abbrev pub Conflicts : Delivery → DeliveryRecordResult → Db → DeliveryRecordResult × Db → Type 0
Conflicts e r db q =
    (receipt : TelemetryDeliveryReceipt) × (q.1.receipts ≡ receipt ∷ db.receipts)
    × (get_receipt q.0.receipt_id q.1 ≡ some receipt)
    × IsConflict e r.receipt_id receipt
    × (q.0.validation_status ≡ DeliveryValidationStatus.conflict)
    × (q.0.request_conflict ≡ true)
    × (q.0.duplicate_of_receipt_id ≡ some r.receipt_id)
    × (q.1.identities ≡ db.identities)
    × (q.1.packets ≡ db.packets)
    × (q.1.jobs ≡ db.jobs)

conflict_receipt :
    (d : Delivery) (fresh : Uuid) (now : Instant) (first : TelemetryDeliveryReceipt)
    → IsConflict d first.receipt_id (new_receipt d fresh now (some first))
conflict_receipt d fresh now first = record {
  body = refl;
  size = refl;
  digest = refl;
  peer = refl;
  status = refl;
  reason = refl;
  duplicate_of = refl;
  queue = refl;
}

unidentified :
    (o : Option Uuid) (first receipt : TelemetryDeliveryReceipt) (db : Db)
    → record_identity o (some first) receipt db ≡ ok db
unfolding record_identity
unidentified none first receipt db = refl
unidentified (some q) first receipt db = refl

conflicting :
    (d : Delivery) (fresh : Uuid) (now : Instant) (first : TelemetryDeliveryReceipt) (db : Db)
    → is_some (get_receipt (new_receipt d fresh now (some first)).receipt_id db) ≡ false
    → Ensures
        (Conflicts d (delivery_result first false false) db)
        (store_receipt d fresh now (some first) db)
unfolding store_receipt
conflicting d fresh now first db new =
    let receipt = new_receipt d fresh now (some first) in
    let with_receipt : Db = record db { receipts = receipt ∷ db.receipts } in
    let there : get_receipt receipt.receipt_id with_receipt ≡ some receipt =
      (unfold find in rw ((==_iff receipt.receipt_id receipt.receipt_id).1 refl) refl) in
    rw (new, unidentified d.canonical_request_id first receipt with_receipt)
      (receipt, refl, there, conflict_receipt d fresh now first, refl, refl, refl, refl, refl, refl)

-- The request identifier is owned: what `repeat_delivery` does with a second body.
repeated :
    (i : TelemetryRequestIdentity) (first : TelemetryDeliveryReceipt) (d e : Delivery)
    (fresh : Uuid) (now : Instant) (db : Db)
    → get_receipt i.first_receipt_id db ≡ some first
    → i.body_sha256 ≡ sha256_hexdigest d.raw_body
    → first.raw_body ≡ d.raw_body
    → is_some (get_receipt (new_receipt e fresh now (some first)).receipt_id db) ≡ false
    → (e.raw_body ≡ d.raw_body
        → repeat_delivery e fresh now i db ≡ ok (delivery_result first true false, db))
      × (e.raw_body ≢ d.raw_body
          → Ensures
              (Conflicts e (delivery_result first false false) db)
              (repeat_delivery e fresh now i db))
unfolding repeat_delivery
repeated i first d e fresh now db found digest body new =
    let bodies = bytes_eq_iff first.raw_body e.raw_body in
    let digests = bytes_eq_iff i.body_sha256 (sha256_hexdigest e.raw_body) in
    (
      λ h.
          rw (found, digests.1 (digest ∙ ap sha256_hexdigest (sym h)), bodies.1 (body ∙ sym h))
            refl,
      λ h.
          let differs : bytes_eq first.raw_body e.raw_body ≡ false =
            elim (Bool-cases (bytes_eq first.raw_body e.raw_body)) [
              | inl same ↦ absurd (h (sym (bodies.0 same) ∙ body))
              | inr other ↦ other
            ] in
          rw (found, differs) (ground (arith, conflicting e fresh now first db new)),
    )

record_attempt_known :
    (q : Uuid) (identity : TelemetryRequestIdentity) (d : Delivery) (fresh : Uuid) (now : Instant)
    (db : Db)
    → d.canonical_request_id ≡ some q
    → find (identity_is q) db.identities ≡ some identity
    → repeat_delivery d fresh now identity db ≡ record_attempt d fresh now db
unfolding record_attempt record_for record_known
record_attempt_known q identity d fresh now db request known =
    sym (
      ap (λ o. record_for o d fresh now db) request ∙ ap (λ o. record_known d fresh now o db) known)

-- Once a delivery has been recorded under a new request identifier, a second delivery under it is
-- an exact retry or a conflict. With the same body it returns the result of the first, marked as a
-- replay, and stores nothing. With another body, under a receipt identifier not yet used, exactly one
-- receipt is added, which is found under the identifier that is returned: it holds the second
-- delivery's bytes, their size and digest, and it is a conflict that names the first receipt; no
-- identity, packet or job is touched.
pub record_attempt-repeat :
    (q : Uuid) (d e : Delivery) (fresh other : Uuid) (now later : Instant)
    (r : DeliveryRecordResult) (db db' : Db)
    → d.canonical_request_id ≡ some q
    → e.canonical_request_id ≡ some q
    → find (identity_is q) db.identities ≡ none
    → record_attempt d fresh now db ≡ ok (r, db')
    → is_some (get_receipt (new_receipt e other later none).receipt_id db') ≡ false
    → (e.raw_body ≡ d.raw_body
        → record_attempt e other later db' ≡ ok (record r { request_replay = true }, db'))
      × (e.raw_body ≢ d.raw_body → Ensures (Conflicts e r db') (record_attempt e other later db'))
record_attempt-repeat q d e fresh other now later r db db' dq eq new h free =
    let c : Owned q d r db' = first_record-Owned q d fresh now r db db' dq new h in
    let (same, differ) =
      repeated c.identity c.first d e other later db' c.found c.digest c.body free in
    let goes = record_attempt_known q c.identity e other later db' eq c.known in
    (
      λ b.
          sym goes
          ∙ (same b ∙ ap (λ x. ok (record x { request_replay = true }, db')) (sym c.result)),
      λ b.
          subst (λ m. Ensures (Conflicts e r db') m) goes
            (subst (λ x. Ensures (Conflicts e x db') (repeat_delivery e other later c.identity db'))
              (sym c.result) (differ b)),
    )
