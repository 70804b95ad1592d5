-- ===== src/Telemetry/Storage/Examples/Packets.antt =====
-- A delivery, its retries, and its acceptance as a packet.
use cislunar_ground_platform.Base.{
  none, some, [], ◌∷◌, true, false, ok, Ensures, ◌≡◌, ◌≢◌, refl, arith,
}
use cislunar_ground_platform.Base.Int.{pos}
use cislunar_ground_platform.Telemetry.Sequence.{decide_sequence}
use cislunar_ground_platform.Telemetry.Storage.Records.{
  TelemetryDeliveryReceipt, DeliveryRecordResult, DeliveryValidationStatus, DeliveryQueueStatus,
  SequenceDisposition, PacketAcceptanceResult, TelemetrySequenceState, Value,
}
use cislunar_ground_platform.Telemetry.Storage.Tables.{
  Db, empty_db, find, replace, is_some, identity_is, get_receipt,
}
use cislunar_ground_platform.Telemetry.Storage.Deliveries.{
  Delivery, delivery_result, new_receipt, new_identity, delivery_event, record_attempt,
}
use cislunar_ground_platform.Telemetry.Storage.Deliveries.Requests.{
  Conflicts, record_attempt-repeat,
}
use cislunar_ground_platform.Telemetry.Storage.Repeats.{values_packet_id, ground_event}
use cislunar_ground_platform.Telemetry.Storage.Acceptance.{
  place, new_packet, first_state, new_job, accepted_receipt, accept_packet_transaction,
}
use cislunar_ground_platform.Telemetry.Storage.Acceptance.Placement.{
  mark, decision, place-decide_sequence,
}
use cislunar_ground_platform.Telemetry.Storage.Acceptance.Replay.{
  SameAcceptance, accept_packet_transaction-replay,
}
use cislunar_ground_platform.Telemetry.Storage.History.{Run, here, next, records, accepts}
use cislunar_ground_platform.Telemetry.Storage.History.Evidence.{KeepsEvidence}
use cislunar_ground_platform.Telemetry.Storage.History.Permanence.{Run-KeepsEvidence}
use cislunar_ground_platform.Telemetry.Storage.History.Invariants.{OneJobEach, Run-OneJobEach}
use cislunar_ground_platform.Telemetry.Storage.Examples.{delivery, values}

abbrev receipt : TelemetryDeliveryReceipt
receipt = new_receipt delivery 1 100 none

abbrev first_result : DeliveryRecordResult
first_result = delivery_result receipt false false

abbrev recorded_db : Db
recorded_db = record {
  receipts = receipt ∷ [];
  identities = new_identity receipt 77 ∷ [];
  packets = [];
  sequences = [];
  jobs = [];
  processed = [];
  audit = delivery_event receipt false ∷ [];
}

recorded : record_attempt delivery 1 100 empty_db ≡ ok (first_result, recorded_db)
unfolding record_attempt find
recorded = refl

no_identity : find (identity_is 77) empty_db.identities ≡ none
unfolding find
no_identity = refl

unused_receipt : is_some (get_receipt 2 recorded_db) ≡ false
unfolding find
unused_receipt = refl

abbrev changed_delivery : Delivery
changed_delivery = record delivery { raw_body = 1 ∷ 3 ∷ [] }

record_attempt-repeat_example :
    (changed_delivery.raw_body ≡ delivery.raw_body
      → record_attempt changed_delivery 2 200 recorded_db
        ≡ ok (record first_result { request_replay = true }, recorded_db))
    × (changed_delivery.raw_body ≢ delivery.raw_body
        → Ensures
            (Conflicts changed_delivery first_result recorded_db)
            (record_attempt changed_delivery 2 200 recorded_db))
record_attempt-repeat_example =
    record_attempt-repeat 77 delivery changed_delivery 1 2 100 200 first_result empty_db recorded_db
      refl refl no_identity recorded unused_receipt

abbrev accepted : PacketAcceptanceResult
accepted = record {
  receipt_id = 1;
  packet_id = some (values_packet_id values);
  job_id = some 50;
  validation_status = DeliveryValidationStatus.accepted;
  queue_status = DeliveryQueueStatus.pending_queue;
  sequence_disposition = some SequenceDisposition.first;
  missing_before = pos 3;
  duplicate = false;
  conflict = false;
  duplicate_of_receipt_id = none;
}

abbrev accepted_db : Db
accepted_db = record {
  receipts = accepted_receipt receipt values 110 ∷ [];
  identities = new_identity receipt 77 ∷ [];
  packets = new_packet receipt values SequenceDisposition.first (pos 3) 110 ∷ [];
  sequences = first_state values (pos 3) 110 ∷ [];
  jobs = new_job 50 (values_packet_id values) 3 110 ∷ [];
  processed = [];
  audit =
      ground_event 110 "telemetry.packet.accepted" "ground-api" "PENDING_QUEUE" none 1
        (some (values_packet_id values)) (some 50)
        (("sequence_disposition", Value.text "FIRST")
          ∷ ("missing_before", Value.integer (pos 3))
          ∷ [])
      ∷ delivery_event receipt false
      ∷ [];
}

was_accepted :
    accept_packet_transaction 1 values 50 3 "ground-api" 110 recorded_db
    ≡ ok (accepted, accepted_db)
unfolding accept_packet_transaction find replace
was_accepted = refl

accept_packet_transaction-replay_example :
    Ensures
      (λ q. SameAcceptance accepted q.0 × (q.1 ≡ accepted_db))
      (accept_packet_transaction 1 values 60 5 "retry" 300 accepted_db)
accept_packet_transaction-replay_example =
    accept_packet_transaction-replay 1 values values 50 60 3 5 "ground-api" "retry" 110 300 accepted
      recorded_db accepted_db was_accepted refl

-- The mark is at the end of the range and the next packet wraps.
abbrev state : TelemetrySequenceState
state = record (first_state values (pos 3) 110) { high_water_sequence = pos 4294967295 }

place-decide_sequence_example :
    decide_sequence (mark (some state)) (pos 1) (1 ∷ []) none
    ≡ decision (mark (some state)) (pos 1) (place (some state) (pos 1))
place-decide_sequence_example =
    place-decide_sequence (some state) 1 1 [] (4294967295, refl, omega arith) (omega arith)

abbrev services : Run empty_db accepted_db
services =
    next (next here (records delivery 1 100 first_result recorded))
      (accepts 1 values 50 3 "ground-api" 110 accepted was_accepted)

Run-KeepsEvidence_example : KeepsEvidence recorded_db accepted_db
Run-KeepsEvidence_example =
    Run-KeepsEvidence recorded_db accepted_db
      (next here (accepts 1 values 50 3 "ground-api" 110 accepted was_accepted))

Run-OneJobEach_example : OneJobEach accepted_db
Run-OneJobEach_example = Run-OneJobEach empty_db accepted_db services refl
