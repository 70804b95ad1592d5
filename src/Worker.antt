-- ===== src/Worker.antt =====
-- mission_ground/services/payload_worker.py: what `run_worker` does with one message it has claimed
-- from the queue. Logging, metrics and waiting are left out.
pub mod Evaluation
pub mod Ownership
pub mod Completion
mod Examples
use cislunar_ground_platform.Base.{
  ℕ, ◌+◌, ◌-◌, ◌*◌, Bool, true, false, not, ◌&&◌, Option, none, some, List, [], ◌∷◌, Bytes, String,
  bit_and, ltb, ◌==◌, if◌then◌else◌, Result, ok, err, ◌>>=◌, ◌>>◌, raise_if,
}
use cislunar_ground_platform.Base.Int.{ℤ, eqb_ℤ, pos_part}
use cislunar_ground_platform.Std.Datetime.{utc}
use cislunar_ground_platform.Std.Uuid.{uuid_of}
use cislunar_ground_platform.Telemetry.Codec as Codec
use cislunar_ground_platform.Telemetry.Codec.{
  TelemetryFrame, CodecError, decode_telemetry, OperatingMode, operating_mode_of,
}
use cislunar_ground_platform.Telemetry.Health as Health
use cislunar_ground_platform.Telemetry.Queue.Messages.{QueueError, QueueMessage}
use cislunar_ground_platform.Telemetry.Queue.Lists.{Redis, ack, retry, dead_letter}
use cislunar_ground_platform.Telemetry.Storage.Records.{
  Uuid, Instant, ProcessingJobState, HealthClassification, DecodedTelemetryValues,
  TelemetryProcessingJob, TelemetryWorkItem, ProcessedTelemetry, ProcessingResultValues,
  ProcessingFailureResult, StorageError, integrity_error,
}
use cislunar_ground_platform.Telemetry.Storage.Records as Records
use cislunar_ground_platform.Telemetry.Storage.Tables.{Db, get_job}
use cislunar_ground_platform.Telemetry.World.{World}
use cislunar_ground_platform.Telemetry.Storage.Jobs.{claim_processing_job}
use cislunar_ground_platform.Telemetry.Storage.Completion.{
  complete_processing_job, fail_processing_attempt,
}

-- The exceptions that reach the worker's handlers.
pub data WorkerError : Type 0 where
  codec : CodecError → WorkerError
  storage : StorageError → WorkerError
  queue : QueueError → WorkerError
  mismatch : WorkerError

-- `_stored_values`
abbrev pub stored_values : TelemetryFrame → DecodedTelemetryValues
stored_values f = record {
  protocol_version = f.protocol_version;
  payload_id = f.payload_id;
  boot_id = f.boot_id;
  sequence_number = f.sequence_number;
  sample_timestamp_us = f.timestamp_us;
  temperature_centi_c = f.temperature_centi_c;
  voltage_mv = f.voltage_mv;
  operating_mode = f.operating_mode;
  fault_flags = f.fault_flags;
}

-- `FaultFlag` without NONE, in the order of its definition.
abbrev flag_names : List (ℕ × String)
flag_names =
    (0x01, "OVER_TEMPERATURE")
    ∷ (0x02, "UNDER_VOLTAGE")
    ∷ (0x04, "OVER_VOLTAGE")
    ∷ (0x08, "TEMPERATURE_SENSOR_FAULT")
    ∷ (0x10, "VOLTAGE_SENSOR_FAULT")
    ∷ (0x20, "INTERNAL_PAYLOAD_FAULT")
    ∷ []

names_in : ℕ → List (ℕ × String) → List String
names_in flags [] = []
names_in flags ((flag, name) ∷ rest) =
    let others = names_in flags rest in if bit_and flags flag == 0 then others else name ∷ others

-- `_fault_names`
unfoldable pub fault_names_of : ℤ → List String
unfolding names_in
fault_names_of flags = names_in (pos_part flags) flag_names

-- `frame.operating_mode.name`; a decoded frame has a mode.
abbrev pub mode_name : Option OperatingMode → String
mode_name none = ""
mode_name (some Codec.safe) = "SAFE"
mode_name (some Codec.standby) = "STANDBY"
mode_name (some Codec.science) = "SCIENCE"
mode_name (some Codec.calibration) = "CALIBRATION"

-- `HealthClassification(assessment.classification.value)`
abbrev pub stored_classification : Health.HealthClassification → HealthClassification
stored_classification Health.nominal = HealthClassification.nominal
stored_classification Health.warning = HealthClassification.warning
stored_classification Health.critical = HealthClassification.critical

abbrev pub result_of : TelemetryFrame → Health.HealthAssessment → ProcessingResultValues
result_of f a = record {
  temperature_c = f.temperature_centi_c;
  voltage_v = f.voltage_mv;
  operating_mode = mode_name (operating_mode_of f.operating_mode);
  fault_names = fault_names_of f.fault_flags;
  classification = stored_classification a.classification;
  is_stale = Health.is_stale a;
  processor_version = "telemetry-v1";
}

-- `==` on `DecodedTelemetryValues`
unfoldable pub same_values : DecodedTelemetryValues → DecodedTelemetryValues → Bool
same_values a b =
    eqb_ℤ a.protocol_version b.protocol_version
    && (eqb_ℤ a.payload_id b.payload_id
        && (eqb_ℤ a.boot_id b.boot_id
            && (eqb_ℤ a.sequence_number b.sequence_number
                && (eqb_ℤ a.sample_timestamp_us b.sample_timestamp_us
                    && (eqb_ℤ a.temperature_centi_c b.temperature_centi_c
                        && (eqb_ℤ a.voltage_mv b.voltage_mv
                            && (eqb_ℤ a.operating_mode b.operating_mode
                                && eqb_ℤ a.fault_flags b.fault_flags)))))))

abbrev pub from_codec : {A : Type 0} → Result CodecError A → Result WorkerError A
from_codec (ok a) = ok a
from_codec (err e) = err (codec e)

-- The saved bytes are decoded again and compared with the saved fields.
unfoldable pub evaluate : TelemetryWorkItem → Result WorkerError ProcessingResultValues
unfolding same_values
evaluate work = do
  frame ← from_codec (decode_telemetry work.raw_body (utc work.received_at))
  raise_if (not (same_values (stored_values frame) work.values)) mismatch
  assessment ← from_codec (Health.assess_health frame (utc work.received_at))
  ok (result_of frame assessment)

-- `isinstance(exc, TelemetryValidationError | ValueError)`
abbrev pub is_value_error : WorkerError → Bool
is_value_error (codec Codec.struct_error) = false
is_value_error (codec _) = true
is_value_error (storage Records.value_error) = true
is_value_error (storage _) = false
is_value_error (queue _) = false
is_value_error mismatch = true

-- The loop goes on, or an exception leaves `run_worker`.
pub data Loop : Type 0 where
  continues : World → Loop
  stops : WorkerError → World → Loop

abbrev pub after_queue : Result QueueError (Unit {0}) × Redis → Db → Loop
after_queue (ok u, redis) db = continues (record { redis = redis; db = db })
after_queue (err e, redis) db = stops (queue e) (record { redis = redis; db = db })

abbrev pub is_failed : ProcessingJobState → Bool
is_failed ProcessingJobState.failed = true
is_failed _ = false

-- The handler of an exception while the worker holds the job. Only errors of the database driver are
-- caught here.
unfoldable pub after_failure :
    Result StorageError (ProcessingFailureResult × Db) → QueueMessage → World → Loop
after_failure (ok (failure, db)) message w =
    after_queue
      (if is_failed failure.state then dead_letter message w.redis else retry message w.redis) db
after_failure (err integrity_error) message w = continues w
after_failure (err e) message w = stops (storage e) w

unfoldable pub record_failure :
    (WorkerError → String)
    → WorkerError
    → TelemetryWorkItem
    → String
    → QueueMessage
    → Instant
    → World
    → Loop
unfolding after_failure
record_failure describe e work worker_id message now w =
    after_failure
      (fail_processing_attempt work.job_id worker_id (describe e) (not (is_value_error e)) 1 now
        w.db)
      message w

-- The result is committed before the reference is acknowledged; a failing acknowledgement is logged.
unfoldable pub after_completion :
    (WorkerError → String)
    → Result StorageError (ProcessedTelemetry × Db)
    → TelemetryWorkItem
    → String
    → QueueMessage
    → Instant
    → World
    → Loop
unfolding record_failure
after_completion describe (ok (stored, db)) work worker_id message now w =
    continues (record { redis = (ack message w.redis).1; db = db })
after_completion describe (err e) work worker_id message now w =
    record_failure describe (storage e) work worker_id message now w

unfoldable pub after_evaluation :
    (WorkerError → String)
    → Result WorkerError ProcessingResultValues
    → TelemetryWorkItem
    → String
    → QueueMessage
    → Instant
    → World
    → Loop
unfolding after_completion
after_evaluation describe (ok result) work worker_id message now w =
    after_completion describe (complete_processing_job work.job_id result worker_id now now w.db)
      work worker_id message now w
after_evaluation describe (err e) work worker_id message now w =
    record_failure describe e work worker_id message now w

-- `_return_or_finish_unclaimed`
unfoldable pub finish_unclaimed :
    Option TelemetryProcessingJob → QueueMessage → Redis → Result QueueError (Unit {0}) × Redis
finish_unclaimed none message redis = ack message redis
finish_unclaimed (some job) message redis = elim job.state [
  | ProcessingJobState.complete ↦ ack message redis
  | ProcessingJobState.failed ↦ dead_letter message redis
  | _ ↦ retry message redis
]

-- Without work an exception returns the reference, as far as Redis still has it.
abbrev pub return_reference : QueueMessage → World → Loop
return_reference message w = continues (record w { redis = (retry message w.redis).1 })

abbrev pub after_unclaimed : Result QueueError (Unit {0}) × Redis → QueueMessage → Db → Loop
after_unclaimed (ok u, redis) message db = continues (record { redis = redis; db = db })
after_unclaimed (err e, redis) message db =
    return_reference message (record { redis = redis; db = db })

unfoldable pub after_claim :
    (WorkerError → String)
    → Result StorageError (Option TelemetryWorkItem × Db)
    → String
    → QueueMessage
    → Instant
    → World
    → Loop
unfolding after_evaluation evaluate finish_unclaimed
after_claim describe (err e) worker_id message now w = return_reference message w
after_claim describe (ok (none, db)) worker_id message now w =
    after_unclaimed (finish_unclaimed (get_job (uuid_of 0 message.job_id) db) message w.redis)
      message db
after_claim describe (ok (some work, db)) worker_id message now w =
    after_evaluation describe (evaluate work) work worker_id message now (record w { db = db })

-- The body of the loop once `queue.claim` has returned a message. One clock reading serves all calls.
unfoldable pub handle_message :
    (WorkerError → String) → String → QueueMessage → Instant → World → Loop
unfolding after_claim
handle_message describe worker_id message now w =
    after_claim describe (claim_processing_job (uuid_of 0 message.job_id) worker_id 60 now w.db)
      worker_id message now w
