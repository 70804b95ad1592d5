-- ===== src/Telemetry/Storage/Deliveries.antt =====
-- storage.py: `record_delivery` and `reject_delivery`. The clock and the random identifiers are
-- arguments.
pub mod Requests
use cislunar_ground_platform.Base.{
  ℕ, zero, suc, Bool, true, false, not, ◌&&◌, Option, none, some, List, [], ◌∷◌, Bytes, bytes_eq,
  String, str_eq, ltb, leb, ◌==◌, if◌then◌else◌, length, Result, ok, err, ◌>>=◌, ◌>>◌, raise_if,
  or_raise,
}
use cislunar_ground_platform.Base.Int.{pos}
use cislunar_ground_platform.Std.Hashlib.{sha256_hexdigest}
use cislunar_ground_platform.Telemetry.Storage.Records.{
  Uuid, Instant, DeliveryValidationStatus, DeliveryQueueStatus, Value, Json,
  TelemetryDeliveryReceipt, TelemetryRequestIdentity, TelemetryAuditEvent, DeliveryRecordResult,
  StorageError, value_error, integrity_error, storage_error, delivery_not_found,
  invalid_delivery_state,
}
use cislunar_ground_platform.Telemetry.Storage.Tables.{
  Db, find, is_some, identity_is, get_receipt, save_receipt, add_audit, insert_receipt,
  insert_identity,
}

abbrev pub max_evidence_body_bytes : ℕ
max_evidence_body_bytes = 1024

-- `_delivery_result`
abbrev pub delivery_result : TelemetryDeliveryReceipt → Bool → Bool → DeliveryRecordResult
delivery_result receipt replay conflict = record {
  receipt_id = receipt.receipt_id;
  validation_status = receipt.validation_status;
  queue_status = receipt.queue_status;
  request_replay = replay;
  request_conflict = conflict;
  duplicate_of_receipt_id = receipt.duplicate_of_receipt_id;
  logical_packet_id = receipt.logical_packet_id;
}

-- The keyword arguments of `record_delivery`.
pub record Delivery : Type 0 where
  pub raw_body : Bytes
  pub peer_certificate_identity : String
  pub presented_request_id : Option String
  pub canonical_request_id : Option Uuid
  pub content_type : Option String
  pub received_at : Option Instant
  pub vendor_sent_at : Option Instant
  pub receipt_id : Option Uuid

abbrev pub option_or : Option ℕ → ℕ → ℕ
option_or none b = b
option_or (some a) b = a

abbrev pub new_receipt :
    Delivery → Uuid → Instant → Option TelemetryDeliveryReceipt → TelemetryDeliveryReceipt
new_receipt d fresh now first = record {
  receipt_id = option_or d.receipt_id fresh;
  presented_request_id = d.presented_request_id;
  canonical_request_id = d.canonical_request_id;
  peer_certificate_identity = d.peer_certificate_identity;
  content_type = d.content_type;
  vendor_sent_at = d.vendor_sent_at;
  received_at = option_or d.received_at now;
  updated_at = option_or d.received_at now;
  raw_body = d.raw_body;
  raw_body_size = length d.raw_body;
  body_sha256 = sha256_hexdigest d.raw_body;
  validation_status =
      if is_some first then DeliveryValidationStatus.conflict else DeliveryValidationStatus.pending;
  rejection_reason = if is_some first then some "REQUEST_ID_REUSED_WITH_DIFFERENT_BODY" else none;
  parsed_identifiers = none;
  duplicate_of_receipt_id = elim first [ none ↦ none | some r ↦ some r.receipt_id ];
  logical_packet_id = none;
  queue_status = DeliveryQueueStatus.not_applicable;
}

abbrev pub new_identity : TelemetryDeliveryReceipt → Uuid → TelemetryRequestIdentity
new_identity receipt request_id = record {
  request_id = request_id;
  first_receipt_id = receipt.receipt_id;
  body_sha256 = receipt.body_sha256;
  created_at = receipt.received_at;
}

-- Only the first body owns the request identifier.
unfoldable pub record_identity :
    Option Uuid
    → Option TelemetryDeliveryReceipt
    → TelemetryDeliveryReceipt
    → Db
    → Result StorageError Db
record_identity none first receipt db = ok db
record_identity (some request_id) (some first) receipt db = ok db
record_identity (some request_id) none receipt db =
    insert_identity (new_identity receipt request_id) db

unfoldable pub delivery_event : TelemetryDeliveryReceipt → Bool → TelemetryAuditEvent
delivery_event receipt conflict = record {
  occurred_at = receipt.received_at;
  service_name = "ground-api";
  event_name =
      if conflict then "telemetry.delivery.request_id_conflict" else "telemetry.delivery.received";
  actor_identity = receipt.peer_certificate_identity;
  outcome = if conflict then "CONFLICT" else "RECORDED";
  reason = receipt.rejection_reason;
  receipt_id = some receipt.receipt_id;
  packet_id = none;
  job_id = none;
  event_data =
      ("body_sha256", Value.code_points receipt.body_sha256)
      ∷ ("raw_body_size", Value.integer (pos receipt.raw_body_size))
      ∷ [];
}

-- A new receipt, which is a conflict where another body owns the request identifier.
unfoldable pub store_receipt :
    Delivery
    → Uuid
    → Instant
    → Option TelemetryDeliveryReceipt
    → Db
    → Result StorageError (DeliveryRecordResult × Db)
unfolding record_identity delivery_event
store_receipt d fresh now first db = do
  let receipt = new_receipt d fresh now first
  with_receipt ← insert_receipt receipt db
  with_identity ← record_identity d.canonical_request_id first receipt with_receipt
  ok (
    delivery_result receipt false (is_some first),
    add_audit (delivery_event receipt (is_some first)) with_identity,
  )

-- The request identifier is known: an exact retry returns the first receipt.
unfoldable pub repeat_delivery :
    Delivery
    → Uuid
    → Instant
    → TelemetryRequestIdentity
    → Db
    → Result StorageError (DeliveryRecordResult × Db)
unfolding store_receipt
repeat_delivery d fresh now identity db = do
  first ← or_raise (get_receipt identity.first_receipt_id db) storage_error
  let same_digest = bytes_eq identity.body_sha256 (sha256_hexdigest d.raw_body)
  let same = same_digest && bytes_eq first.raw_body d.raw_body
  if same
      then ok (delivery_result first true false, db)
      else store_receipt d fresh now (some first) db

unfoldable pub record_known :
    Delivery
    → Uuid
    → Instant
    → Option TelemetryRequestIdentity
    → Db
    → Result StorageError (DeliveryRecordResult × Db)
record_known d fresh now none db = store_receipt d fresh now none db
record_known d fresh now (some identity) db = repeat_delivery d fresh now identity db

unfoldable pub record_for :
    Option Uuid → Delivery → Uuid → Instant → Db → Result StorageError (DeliveryRecordResult × Db)
record_for none d fresh now db = store_receipt d fresh now none db
record_for (some request_id) d fresh now db =
    record_known d fresh now (find (identity_is request_id) db.identities) db

-- One pass of the loop in `record_delivery`.
unfoldable pub record_attempt :
    Delivery → Uuid → Instant → Db → Result StorageError (DeliveryRecordResult × Db)
unfolding record_for record_known store_receipt repeat_delivery
record_attempt d fresh now db = record_for d.canonical_request_id d fresh now db

abbrev pub is_integrity_error : StorageError → Bool
is_integrity_error integrity_error = true
is_integrity_error _ = false

-- `for attempt in range(2)`: an `IntegrityError` of the first pass is followed by one more pass.
-- A rival is the database that a concurrent transaction has committed between the reads and the
-- writes of the first pass, which then fails and is rolled back.
abbrev pub retry_once :
    {A : Type 0} → (ℕ → Db → Result StorageError A) → Option Db → Db → Result StorageError A
retry_once attempt none db = elim (attempt 0 db) [
  | ok a ↦ ok a
  | err e ↦ if is_integrity_error e then attempt 1 db else err e
]
retry_once attempt (some rival) db = attempt 1 rival

-- `fresh` is the random identifier of each pass.
unfoldable pub record_delivery :
    Delivery
    → (ℕ → Uuid)
    → Instant
    → Option Db
    → Db
    → Result StorageError (DeliveryRecordResult × Db)
unfolding record_attempt
record_delivery d fresh now rival db = do
  raise_if (ltb max_evidence_body_bytes (length d.raw_body)) value_error
  raise_if (str_eq d.peer_certificate_identity "") value_error
  retry_once (λ attempt. record_attempt d (fresh attempt) now) rival db

unfoldable pub rejected_event :
    TelemetryDeliveryReceipt → String → Option Json → String → Instant → TelemetryAuditEvent
rejected_event receipt reason parsed actor now = record {
  occurred_at = now;
  service_name = "ground-api";
  event_name = "telemetry.delivery.rejected";
  actor_identity = actor;
  outcome = "REJECTED";
  reason = some reason;
  receipt_id = some receipt.receipt_id;
  packet_id = none;
  job_id = none;
  event_data = elim parsed [ none ↦ [] | some members ↦ members ];
}

abbrev pub reason_is : String → Option String → Bool
reason_is reason none = false
reason_is reason (some r) = str_eq r reason

abbrev pub rejected_receipt :
    TelemetryDeliveryReceipt → String → Option Json → Instant → TelemetryDeliveryReceipt
rejected_receipt receipt reason parsed now = record receipt {
  validation_status = DeliveryValidationStatus.rejected;
  rejection_reason = some reason;
  parsed_identifiers = parsed;
  queue_status = DeliveryQueueStatus.not_applicable;
  updated_at = now;
}

unfoldable pub reject_by_status :
    DeliveryValidationStatus
    → TelemetryDeliveryReceipt
    → String
    → Option Json
    → String
    → Instant
    → Db
    → Result StorageError (DeliveryRecordResult × Db)
unfolding rejected_event
reject_by_status DeliveryValidationStatus.rejected receipt reason parsed actor now db = do
  raise_if (not (reason_is reason receipt.rejection_reason)) invalid_delivery_state
  ok (delivery_result receipt true false, db)
reject_by_status DeliveryValidationStatus.pending receipt reason parsed actor now db = do
  let changed = rejected_receipt receipt reason parsed now
  ok (
    delivery_result changed false false,
    add_audit (rejected_event changed reason parsed actor now) (save_receipt changed db),
  )
reject_by_status _ receipt reason parsed actor now db = err invalid_delivery_state

unfoldable pub reject_delivery :
    Uuid
    → String
    → Option Json
    → String
    → Instant
    → Db
    → Result StorageError (DeliveryRecordResult × Db)
unfolding reject_by_status
reject_delivery receipt_id reason parsed actor now db = do
  receipt ← or_raise (get_receipt receipt_id db) delivery_not_found
  reject_by_status receipt.validation_status receipt reason parsed actor now db
