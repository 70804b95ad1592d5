-- ===== src/Telemetry/Storage/History.antt =====
-- The committed transactions of the repository as steps of the database. Row locks and unique
-- constraints serialise concurrent callers, so any interleaving is a sequence of such steps.
pub mod Evidence
pub mod Changes
pub mod Invariants
pub mod Packets
pub mod Permanence
pub mod Progress
use cislunar_ground_platform.Base.{ℕ, Bool, Option, Bytes, String, Result, ok, ◌≡◌}
use cislunar_ground_platform.Telemetry.Storage.Records.{
  Uuid, Instant, Json, DeliveryRecordResult, DecodedTelemetryValues, PacketAcceptanceResult,
  TelemetryWorkItem, ProcessingResultValues, ProcessedTelemetry, ProcessingFailureResult,
  TelemetryAuditEvent, StorageError,
}
use cislunar_ground_platform.Telemetry.Storage.Tables.{Db, add_audit}
use cislunar_ground_platform.Telemetry.Storage.Deliveries.{
  Delivery, record_attempt, reject_delivery,
}
use cislunar_ground_platform.Telemetry.Storage.Acceptance.{accept_packet_transaction}
use cislunar_ground_platform.Telemetry.Storage.Jobs.{mark_job_queued, claim_processing_job}
use cislunar_ground_platform.Telemetry.Storage.Completion.{
  complete_processing_job, fail_processing_attempt,
}

-- One committed transaction.
pub data Step (db db' : Db) : Type 0 where
  records :
      (d : Delivery) (fresh : Uuid) (now : Instant) (r : DeliveryRecordResult)
      → record_attempt d fresh now db ≡ ok (r, db')
      → Step db db'
  rejects :
      (i : Uuid) (reason : String) (parsed : Option Json) (actor : String) (now : Instant)
      (r : DeliveryRecordResult)
      → reject_delivery i reason parsed actor now db ≡ ok (r, db')
      → Step db db'
  accepts :
      (i : Uuid) (v : DecodedTelemetryValues) (job : Uuid) (most : ℕ) (actor : String)
      (now : Instant) (r : PacketAcceptanceResult)
      → accept_packet_transaction i v job most actor now db ≡ ok (r, db')
      → Step db db'
  marks :
      (i : Uuid) (message : Bytes) (actor : String) (now : Instant) (r : Bool)
      → mark_job_queued i message actor now db ≡ ok (r, db')
      → Step db db'
  claims :
      (i : Uuid) (worker : String) (lease : ℕ) (now : Instant) (r : Option TelemetryWorkItem)
      → claim_processing_job i worker lease now db ≡ ok (r, db')
      → Step db db'
  completes :
      (i : Uuid) (v : ProcessingResultValues) (worker : String) (at now : Instant)
      (r : ProcessedTelemetry)
      → complete_processing_job i v worker at now db ≡ ok (r, db')
      → Step db db'
  fails :
      (i : Uuid) (worker reason : String) (temporary : Bool) (base : ℕ) (now : Instant)
      (r : ProcessingFailureResult)
      → fail_processing_attempt i worker reason temporary base now db ≡ ok (r, db')
      → Step db db'
  audits : (e : TelemetryAuditEvent) → db' ≡ add_audit e db → Step db db'

-- A run of the services on the database.
pub data Run (db : Db) : Db → Type 0 where
  here : Run db db
  next : {db' db'' : Db} → Run db db' → Step db' db'' → Run db db''
