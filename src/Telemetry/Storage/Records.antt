-- ===== src/Telemetry/Storage/Records.antt =====
-- The tables of mission_ground/telemetry/storage.py as records: one field for each column. A UUID
-- is its 128-bit number, a timestamp is microseconds since 1970 in Coordinated Universal Time, and
-- the JSON columns are lists of members. The random identifiers of audit events are left out.
use cislunar_ground_platform.Base.{ℕ, Option, List, Bytes, String, Bool}
use cislunar_ground_platform.Base.Int.{ℤ}

abbrev pub Uuid : Type 0
Uuid = ℕ

abbrev pub Instant : Type 0
Instant = ℕ

pub data DeliveryValidationStatus : Type 0 where
  pending accepted rejected duplicate conflict : DeliveryValidationStatus

pub data DeliveryQueueStatus : Type 0 where
  not_applicable pending_queue queued : DeliveryQueueStatus

pub data SequenceDisposition : Type 0 where
  first in_order gap late : SequenceDisposition

pub data ProcessingJobState : Type 0 where
  pending_queue queued processing retry_wait complete failed : ProcessingJobState

pub data HealthClassification : Type 0 where
  nominal warning critical : HealthClassification

-- A member of a JSON object.
pub data Value : Type 0 where
  text : String → Value
  code_points : Bytes → Value
  integer : ℤ → Value
  uuid : Uuid → Value
  moment : Option Instant → Value
  flag : Bool → Value
  quotient : ℤ → ℕ → Value
  texts : List String → Value
  null : Value

abbrev pub Json : Type 0
Json = List (String × Value)

pub record TelemetryDeliveryReceipt : Type 0 where
  pub receipt_id : Uuid
  pub presented_request_id : Option String
  pub canonical_request_id : Option Uuid
  pub peer_certificate_identity : String
  pub content_type : Option String
  pub vendor_sent_at : Option Instant
  pub received_at : Instant
  pub updated_at : Instant
  pub raw_body : Bytes
  pub raw_body_size : ℕ
  pub body_sha256 : Bytes
  pub validation_status : DeliveryValidationStatus
  pub rejection_reason : Option String
  pub parsed_identifiers : Option Json
  pub duplicate_of_receipt_id : Option Uuid
  pub logical_packet_id : Option Bytes
  pub queue_status : DeliveryQueueStatus

pub record TelemetryRequestIdentity : Type 0 where
  pub request_id : Uuid
  pub first_receipt_id : Uuid
  pub body_sha256 : Bytes
  pub created_at : Instant

pub record LogicalTelemetryPacket : Type 0 where
  pub packet_id : Bytes
  pub source_receipt_id : Uuid
  pub protocol_version : ℤ
  pub payload_id : ℤ
  pub boot_id : ℤ
  pub sequence_number : ℤ
  pub sample_timestamp_us : ℤ
  pub temperature_centi_c : ℤ
  pub voltage_mv : ℤ
  pub operating_mode : ℤ
  pub fault_flags : ℤ
  pub raw_sha256 : Bytes
  pub sequence_disposition : SequenceDisposition
  pub missing_before : ℤ
  pub accepted_at : Instant

pub record TelemetrySequenceState : Type 0 where
  pub payload_id : ℤ
  pub boot_id : ℤ
  pub high_water_sequence : ℤ
  pub accepted_packet_count : ℕ
  pub missing_packet_count : ℤ
  pub last_high_water_packet_id : Bytes
  pub created_at : Instant
  pub updated_at : Instant

pub record TelemetryProcessingJob : Type 0 where
  pub job_id : Uuid
  pub packet_id : Bytes
  pub state : ProcessingJobState
  pub queue_message_id : Option Bytes
  pub attempt_count : ℕ
  pub max_attempts : ℕ
  pub claimed_by : Option String
  pub claimed_at : Option Instant
  pub lease_expires_at : Option Instant
  pub next_attempt_at : Option Instant
  pub last_error : Option String
  pub failed_at : Option Instant
  pub completed_at : Option Instant
  pub created_at : Instant
  pub updated_at : Instant

-- `temperature_c` and `voltage_v` are quotients by 100 and 1000, kept as their numerators.
pub record ProcessingResultValues : Type 0 where
  pub temperature_c : ℤ
  pub voltage_v : ℤ
  pub operating_mode : String
  pub fault_names : List String
  pub classification : HealthClassification
  pub is_stale : Bool
  pub processor_version : String

pub record ProcessedTelemetry : Type 0 where
  pub packet_id : Bytes
  pub processing_job_id : Uuid
  pub result : ProcessingResultValues
  pub processed_at : Instant

pub record TelemetryAuditEvent : Type 0 where
  pub occurred_at : Instant
  pub service_name : String
  pub event_name : String
  pub actor_identity : String
  pub outcome : String
  pub reason : Option String
  pub receipt_id : Option Uuid
  pub packet_id : Option Bytes
  pub job_id : Option Uuid
  pub event_data : Json

pub record DeliveryRecordResult : Type 0 where
  pub receipt_id : Uuid
  pub validation_status : DeliveryValidationStatus
  pub queue_status : DeliveryQueueStatus
  pub request_replay : Bool
  pub request_conflict : Bool
  pub duplicate_of_receipt_id : Option Uuid
  pub logical_packet_id : Option Bytes

pub record DecodedTelemetryValues : Type 0 where
  pub protocol_version : ℤ
  pub payload_id : ℤ
  pub boot_id : ℤ
  pub sequence_number : ℤ
  pub sample_timestamp_us : ℤ
  pub temperature_centi_c : ℤ
  pub voltage_mv : ℤ
  pub operating_mode : ℤ
  pub fault_flags : ℤ

pub record PacketAcceptanceResult : Type 0 where
  pub receipt_id : Uuid
  pub packet_id : Option Bytes
  pub job_id : Option Uuid
  pub validation_status : DeliveryValidationStatus
  pub queue_status : DeliveryQueueStatus
  pub sequence_disposition : Option SequenceDisposition
  pub missing_before : ℤ
  pub duplicate : Bool
  pub conflict : Bool
  pub duplicate_of_receipt_id : Option Uuid

pub record TelemetryWorkItem : Type 0 where
  pub job_id : Uuid
  pub packet_id : Bytes
  pub raw_body : Bytes
  pub received_at : Instant
  pub values : DecodedTelemetryValues
  pub attempt_count : ℕ
  pub max_attempts : ℕ

pub record ProcessingFailureResult : Type 0 where
  pub job_id : Uuid
  pub state : ProcessingJobState
  pub attempt_count : ℕ
  pub next_attempt_at : Option Instant

pub data StorageError : Type 0 where
  value_error integrity_error storage_error : StorageError
  delivery_not_found invalid_delivery_state : StorageError
  processing_job_not_found processing_result_conflict : StorageError
