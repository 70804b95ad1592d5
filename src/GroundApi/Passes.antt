-- ===== src/GroundApi/Passes.antt =====
-- storage.py, the two loops `for attempt in range(2)`: what they return is what one pass returned.
use cislunar_ground_platform.Base.{
  ℕ, none, Result, ok, err, raise_if-passed, ◌≡◌, ltb, ◌&&◌, not, ◌==◌, str_eq, length, inl, ◌⊎◌,
  inr, Bool-cases, if◌then◌else◌, String,
}
use cislunar_ground_platform.Base.Int.{pos, leb_ℤ}
use cislunar_ground_platform.Telemetry.Storage.Records.{
  Uuid, Instant, StorageError, value_error, DeliveryRecordResult, PacketAcceptanceResult,
  DecodedTelemetryValues,
}
use cislunar_ground_platform.Telemetry.Storage.Repeats.{max_uint32}
use cislunar_ground_platform.Telemetry.Storage.Tables.{Db}
use cislunar_ground_platform.Telemetry.Storage.Deliveries.{
  Delivery, max_evidence_body_bytes, is_integrity_error, retry_once, record_attempt,
  record_delivery,
}
use cislunar_ground_platform.Telemetry.Storage.Acceptance.{
  accept_packet_transaction, accept_packet_and_create_job,
}

either_pass :
    {A : Type 0} (m m' : Result StorageError A) (a : A)
    → (elim m [ ok b ↦ ok b | err e ↦ if is_integrity_error e then m' else err e ]) ≡ ok a
    → (m ≡ ok a) ⊎ (m' ≡ ok a)
either_pass (ok b) m' a h = inl h
either_pass (err e) m' a h = elim (Bool-cases (is_integrity_error e)) [
  | inl again ↦ inr (rw again at h)
  | inr other ↦ cc (rw other at h)
]

one_pass :
    {A : Type 0} (attempt : Db → Result StorageError A) (db : Db) (a : A)
    → retry_once (λ k. attempt) none db ≡ ok a
    → attempt db ≡ ok a
one_pass attempt db a h = elim (either_pass (attempt db) (attempt db) a h) [ inl e ↦ e | inr e ↦ e ]

-- With one identifier for both passes, a returned value is that of one pass.
pub record_delivery-pass :
    (d : Delivery) (fresh : Uuid) (now : Instant) (db db' : Db) (r : DeliveryRecordResult)
    → record_delivery d (λ pass. fresh) now none db ≡ ok (r, db')
    → record_attempt d fresh now db ≡ ok (r, db')
unfolding record_delivery
record_delivery-pass d fresh now db db' r h =
    one_pass (record_attempt d fresh now) db (r, db')
      (raise_if-passed (str_eq d.peer_certificate_identity "") value_error
        (retry_once (λ pass. record_attempt d fresh now) none db)
        (raise_if-passed (ltb max_evidence_body_bytes (length d.raw_body)) value_error _ h))

pub accept_packet-pass :
    (i : Uuid) (v : DecodedTelemetryValues) (fresh : Uuid) (most : ℕ) (actor : String)
    (now : Instant) (db db' : Db) (r : PacketAcceptanceResult)
    → accept_packet_and_create_job i v (λ pass. fresh) most actor now none db ≡ ok (r, db')
    → accept_packet_transaction i v fresh most actor now db ≡ ok (r, db')
unfolding accept_packet_and_create_job
accept_packet-pass i v fresh most actor now db db' r h =
    let loop = retry_once (λ pass. accept_packet_transaction i v fresh most actor now) none db in
    one_pass (accept_packet_transaction i v fresh most actor now) db (r, db')
      (raise_if-passed (most == 0) value_error loop (
        raise_if-passed (leb_ℤ v.boot_id (pos 0)) value_error _ (
          raise_if-passed
            (not (leb_ℤ (pos 0) v.sequence_number && leb_ℤ v.sequence_number (pos max_uint32)))
            value_error _ h)))
