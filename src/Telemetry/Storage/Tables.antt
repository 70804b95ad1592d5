-- ===== src/Telemetry/Storage/Tables.antt =====
-- The database as its tables, the lookups and row updates of the session, and the constraints that
-- an insert checks. A transaction is a function of the database: what raises has no new database,
-- as `async with session.begin()` rolls back.
pub mod Rows
use cislunar_ground_platform.Base.{
  ℕ, ◌^◌, ◌-◌, Bool, true, false, not, ◌&&◌, ◌||◌, Option, none, some, List, [], ◌∷◌, ◌++◌, Bytes,
  bytes_eq, ltb, leb, ◌==◌, if◌then◌else◌, Result, ok, err, ◌>>=◌, ◌>>◌, raise_if,
}
use cislunar_ground_platform.Base.Int.{ℤ, pos, ltb_ℤ, leb_ℤ, leb_ℤ, eqb_ℤ}
use cislunar_ground_platform.Telemetry.Storage.Records.{
  Uuid, TelemetryDeliveryReceipt, TelemetryRequestIdentity, LogicalTelemetryPacket,
  TelemetrySequenceState, TelemetryProcessingJob, ProcessedTelemetry, TelemetryAuditEvent,
  StorageError, integrity_error,
}

pub record Db : Type 0 where
  pub receipts : List TelemetryDeliveryReceipt
  pub identities : List TelemetryRequestIdentity
  pub packets : List LogicalTelemetryPacket
  pub sequences : List TelemetrySequenceState
  pub jobs : List TelemetryProcessingJob
  pub processed : List ProcessedTelemetry
  pub audit : List TelemetryAuditEvent

abbrev pub empty_db : Db
empty_db = record {
  receipts = [];
  identities = [];
  packets = [];
  sequences = [];
  jobs = [];
  processed = [];
  audit = [];
}

module _ {ℓ} {A : Type ℓ} where
  -- The first row that passes, as `session.get` and `session.scalar` find it.
  unfoldable pub find : (A → Bool) → List A → Option A
  find p [] = none
  find p (x ∷ xs) = if p x then some x else find p xs

  -- Writes a changed row over the first that passes.
  unfoldable pub replace : (A → Bool) → A → List A → List A
  replace p y [] = []
  replace p y (x ∷ xs) = if p x then y ∷ xs else x ∷ replace p y xs

  abbrev pub is_some : Option A → Bool
  is_some none = false
  is_some (some a) = true

abbrev pub receipt_is : Uuid → TelemetryDeliveryReceipt → Bool
receipt_is i r = r.receipt_id == i

abbrev pub identity_is : Uuid → TelemetryRequestIdentity → Bool
identity_is i r = r.request_id == i

abbrev pub packet_is : Bytes → LogicalTelemetryPacket → Bool
packet_is i r = bytes_eq r.packet_id i

abbrev pub packet_has_key : ℤ → ℤ → ℤ → LogicalTelemetryPacket → Bool
packet_has_key p b s r = eqb_ℤ r.payload_id p && (eqb_ℤ r.boot_id b && eqb_ℤ r.sequence_number s)

abbrev pub sequence_is : ℤ → ℤ → TelemetrySequenceState → Bool
sequence_is p b r = eqb_ℤ r.payload_id p && eqb_ℤ r.boot_id b

abbrev pub job_is : Uuid → TelemetryProcessingJob → Bool
job_is i r = r.job_id == i

abbrev pub job_for : Bytes → TelemetryProcessingJob → Bool
job_for i r = bytes_eq r.packet_id i

abbrev pub processed_is : Bytes → ProcessedTelemetry → Bool
processed_is i r = bytes_eq r.packet_id i

abbrev pub get_receipt : Uuid → Db → Option TelemetryDeliveryReceipt
get_receipt i db = find (receipt_is i) db.receipts

abbrev pub get_packet : Bytes → Db → Option LogicalTelemetryPacket
get_packet i db = find (packet_is i) db.packets

abbrev pub get_job : Uuid → Db → Option TelemetryProcessingJob
get_job i db = find (job_is i) db.jobs

abbrev pub get_job_for_packet : Bytes → Db → Option TelemetryProcessingJob
get_job_for_packet i db = find (job_for i) db.jobs

abbrev pub get_processed : Bytes → Db → Option ProcessedTelemetry
get_processed i db = find (processed_is i) db.processed

abbrev pub save_receipt : TelemetryDeliveryReceipt → Db → Db
save_receipt r db = record db { receipts = replace (receipt_is r.receipt_id) r db.receipts }

abbrev pub save_job : TelemetryProcessingJob → Db → Db
save_job j db = record db { jobs = replace (job_is j.job_id) j db.jobs }

abbrev pub save_sequence : TelemetrySequenceState → Db → Db
save_sequence s db = record db {
  sequences = replace (sequence_is s.payload_id s.boot_id) s db.sequences;
}

abbrev pub add_audit : TelemetryAuditEvent → Db → Db
add_audit e db = record db { audit = e ∷ db.audit }

-- The primary key of a receipt.
abbrev pub insert_receipt : TelemetryDeliveryReceipt → Db → Result StorageError Db
insert_receipt r db = do
  raise_if (is_some (get_receipt r.receipt_id db)) integrity_error
  ok (record db { receipts = r ∷ db.receipts })

-- The primary key of a request identity, and its unique first receipt.
abbrev pub insert_identity : TelemetryRequestIdentity → Db → Result StorageError Db
insert_identity r db = do
  raise_if (is_some (find (identity_is r.request_id) db.identities)) integrity_error
  raise_if (is_some (find (λ s. s.first_receipt_id == r.first_receipt_id) db.identities))
      integrity_error
  ok (record db { identities = r ∷ db.identities })

-- The primary key, the unique source receipt, the unique source key and the checks of a packet.
abbrev pub insert_packet : LogicalTelemetryPacket → Db → Result StorageError Db
insert_packet r db = do
  raise_if (is_some (get_packet r.packet_id db)) integrity_error
  raise_if (is_some (find (λ s. s.source_receipt_id == r.source_receipt_id) db.packets))
      integrity_error
  raise_if (is_some (find (packet_has_key r.payload_id r.boot_id r.sequence_number) db.packets))
      integrity_error
  raise_if (not (ltb_ℤ (pos 0) r.payload_id && ltb_ℤ (pos 0) r.boot_id)) integrity_error
  raise_if (not (leb_ℤ (pos 0) r.sequence_number && ltb_ℤ r.sequence_number (pos (2 ^ 32))))
      integrity_error
  ok (record db { packets = r ∷ db.packets })

abbrev pub insert_sequence : TelemetrySequenceState → Db → Result StorageError Db
insert_sequence r db = do
  raise_if (is_some (find (sequence_is r.payload_id r.boot_id) db.sequences)) integrity_error
  ok (record db { sequences = r ∷ db.sequences })

-- The primary key of a job and its unique packet.
abbrev pub insert_job : TelemetryProcessingJob → Db → Result StorageError Db
insert_job r db = do
  raise_if (is_some (get_job r.job_id db)) integrity_error
  raise_if (is_some (get_job_for_packet r.packet_id db)) integrity_error
  ok (record db { jobs = r ∷ db.jobs })

-- The primary key of a result and its unique job.
abbrev pub insert_processed : ProcessedTelemetry → Db → Result StorageError Db
insert_processed r db = do
  raise_if (is_some (get_processed r.packet_id db)) integrity_error
  raise_if (is_some (find (λ s. s.processing_job_id == r.processing_job_id) db.processed))
      integrity_error
  ok (record db { processed = r ∷ db.processed })
