-- ===== src/GroundApi/Examples.antt =====
-- services/ground_api.py: one frame that is posted while Redis is down, and again after it is back.
use cislunar_ground_platform.Base.{
  true, ℕ, none, some, [], ◌∷◌, Bytes, bytes_eq, ok, ◌≡◌, refl, arith,
}
use cislunar_ground_platform.Base.Int.{pos}
use cislunar_ground_platform.Base.{inl, length, ◌≤◌, ◌<◌, ◌↔◌, bytes_eq_iff}
use cislunar_ground_platform.Base.{All}
use cislunar_ground_platform.Telemetry.Storage.Queries.{
  recoverable_queue_jobs, select, order_by, insert_by,
}
use cislunar_ground_platform.Std.Text.{without_prefix}
use cislunar_ground_platform.Telemetry.Queue.Messages.{full_match, packet_pattern}
use cislunar_ground_platform.Telemetry.Storage.Records.{LogicalTelemetryPacket, SequenceDisposition}
use cislunar_ground_platform.GroundApi.Requests.{Identity, bearer_identity}
use cislunar_ground_platform.GroundApi.Calls.{query}
use cislunar_ground_platform.GroundApi.Reads.{
  get_raw_payload, check_message, read_raw, with_packet, with_source, raw_answer, raw_content,
}
use cislunar_ground_platform.GroundApi.Bearers.{IsBearer}
use cislunar_ground_platform.GroundApi.Retrieval.{ShowsEvidence, get_raw_payload-Evidence}
use cislunar_ground_platform.GroundApi.Recovery.{recover_pending_jobs}
use cislunar_ground_platform.GroundApi.Marking.{Ready, IsQueued}
use cislunar_ground_platform.GroundApi.Restart.{recover_pending_jobs-Queued}
use cislunar_ground_platform.Std.Text.{
  compare_digest, int_of, strip, before, lower, lstrip, is_ascii,
}
use cislunar_ground_platform.Std.Unicode.{is_space, is_decimal, decimal_value}
use cislunar_ground_platform.Std.Uuid.{uuid_text}
use cislunar_ground_platform.Telemetry.Queue.Messages.{QueueMessage, queue_message}
use cislunar_ground_platform.Telemetry.Queue.Lists.{get}
use cislunar_ground_platform.Telemetry.Storage.Records.{
  TelemetryDeliveryReceipt, TelemetryProcessingJob, DeliveryValidationStatus, DeliveryQueueStatus,
}
use cislunar_ground_platform.Telemetry.Storage.Tables.{find, replace, get_receipt}
use cislunar_ground_platform.Telemetry.Storage.Deliveries.{
  new_receipt, new_identity, record_delivery, reject_delivery,
}
use cislunar_ground_platform.Telemetry.Storage.Acceptance.{new_job}
use cislunar_ground_platform.Telemetry.Storage.History.{Run, here}
use cislunar_ground_platform.GroundApi.Refines.{OthersRun}
use cislunar_ground_platform.GroundApi.Refines.Handlers.{receive_payload_data-Run}
use cislunar_ground_platform.GroundApi.Bodies.{sent, Allows, bounded_body_iff}
use cislunar_ground_platform.GroundApi.Queueing.{Quiet}
use cislunar_ground_platform.GroundApi.Retry.{Waits, IsProper, Queues, receive_payload_data-Queues}
use cislunar_ground_platform.GroundApi.Boundary.{
  Rejection, other_token, sent_too_large, IsVendor, Refused, receive_payload_data-Refused,
}
use cislunar_ground_platform.GroundApi.Evidence.{receive_payload_data-Backed}
use cislunar_ground_platform.GroundApi.Calls.{transaction, committed}
use cislunar_ground_platform.GroundApi.Responses.{rejected_content}
use cislunar_ground_platform.GroundApi.Delivery.{delivery_of}
use cislunar_ground_platform.Std.Text.{codes}
use cislunar_ground_platform.Telemetry.Settings.{GroundSettings}
use cislunar_ground_platform.Telemetry.Storage.Tables.{empty_db}
use cislunar_ground_platform.Telemetry.World.{World}
use cislunar_ground_platform.GroundApi.Requests.{
  Request, vendor_is_known, canonical_uuid4_of, is_octet_stream, bounded_body,
}
use cislunar_ground_platform.GroundApi.Calls.{Call, Reply, Env}
use cislunar_ground_platform.GroundApi.Responses.{respond}
use cislunar_ground_platform.GroundApi.Delivery.{receive_payload_data}

abbrev raw : Bytes
raw =
    1 ∷ 1 ∷ 0 ∷ 0 ∷ 0 ∷ 7 ∷ 0 ∷ 0 ∷ 0 ∷ 3 ∷ 0 ∷ 6 ∷ 71 ∷ 72 ∷ 73 ∷ 179 ∷ 199 ∷ 0 ∷ 8 ∷ 102 ∷ 109
    ∷ 96 ∷ 2 ∷ 0 ∷ 64 ∷ 232 ∷ 197 ∷ 9 ∷ []

abbrev settings : GroundSettings
settings = record {
  vendor_token = codes "vendor";
  operator_token = codes "operator";
  admin_token = codes "admin";
  max_telemetry_body_bytes = pos 1024;
  processing_maximum_attempts = pos 3;
}

abbrev request : Request
request = record {
  vendor_token = some (codes "vendor");
  request_id = some "00000000-0000-4000-8000-00000000004d";
  content_length = some (codes "28");
  content_type = some "application/octet-stream";
  chunks = raw ∷ [];
}

abbrev start : World
start = record {
  redis = record { pending = []; processing = []; failed = []; markers = [] };
  db = empty_db;
}

abbrev up : Env
up = record {
  received_at = 1767225662000000;
  now = 1767225662000001;
  fresh_receipt = 1;
  fresh_job = 50;
  reply = λ call. Reply.answered;
  others = λ call w. w;
}

abbrev down : Env
down = record up {
  reply = λ call. elim call [ Call.enqueues ↦ Reply.refused | _ ↦ Reply.answered ];
}

alone : OthersRun up
alone call w = here

quiet : Quiet up
quiet = record { answers = λ call. refl; alone = λ call w. refl }

abbrev request_id : ℕ
request_id = 302240678275694148452429

abbrev packet_id : Bytes
packet_id = codes "TLM-P01-B00000007-S00000003"

-- The receipt and the job that the first attempt has left.
abbrev first : TelemetryDeliveryReceipt
first = record (new_receipt (delivery_of down request raw) 1 1767225662000001 none) {
  validation_status = DeliveryValidationStatus.accepted;
  logical_packet_id = some packet_id;
  queue_status = DeliveryQueueStatus.pending_queue;
}

abbrev job : TelemetryProcessingJob
job = new_job 50 packet_id 3 1767225662000001

abbrev after_outage : World
after_outage = record start {
  db = record empty_db {
    receipts = first ∷ [];
    identities = new_identity first request_id ∷ [];
    jobs = job ∷ [];
  };
}

abbrev message : QueueMessage
message = record { job_id = codes "00000000-0000-0000-0000-000000000032"; packet_id = packet_id }

waits : Waits request_id (sent request.chunks) after_outage.db
unfolding find sent bytes_eq
waits = record {
  identity = new_identity first request_id;
  first = first;
  packet_id = packet_id;
  job = job;
  known = refl;
  found = refl;
  digest = refl;
  same = refl;
  accepted = refl;
  pending = refl;
  packet = refl;
  has_job = refl;
  own_job = refl;
  waits = refl;
}

proper : IsProper settings request request_id
unfolding vendor_is_known compare_digest is_octet_stream canonical_uuid4_of sent int_of is_space
    decimal_value bytes_eq strip before lower lstrip is_ascii
proper = record {
  most = 1024;
  limit = refl;
  small = omega arith;
  vendor = refl;
  allowed = (pos 28, refl, refl);
  fits = omega arith;
  media = refl;
  named = refl;
}

named : queue_message (uuid_text 50) packet_id ≡ ok message
unfolding queue_message uuid_text is_space is_decimal
named = refl

receive_payload_data-Queues_example :
    Queues up message job (receive_payload_data up settings request after_outage)
unfolding waits get
receive_payload_data-Queues_example =
    receive_payload_data-Queues up settings request request_id message after_outage waits quiet
      proper named (inl refl)

receive_payload_data-Run_example :
    Run after_outage.db (receive_payload_data down settings request after_outage).1.db
receive_payload_data-Run_example = receive_payload_data-Run down settings request after_outage alone

bounded_body_iff_example :
    (bounded_body request (pos 1024) ≡ ok raw)
    ↔ (Allows 1024 request.content_length × (raw ≡ sent request.chunks) × (length raw ≤ 1024))
bounded_body_iff_example = bounded_body_iff request 1024 raw

abbrev stranger : Request
stranger = record request { vendor_token = some (codes "visitor") }

stranger_rejected : Rejection settings stranger
unfolding is_ascii bytes_eq
stranger_rejected = other_token (codes "visitor") refl refl refl λ same.
    let equal : bytes_eq (codes "visitor") (codes "vendor") ≡ true =
      (bytes_eq_iff (codes "visitor") (codes "vendor")).1 same in
    cc equal

-- The limit is one byte less than what is sent.
abbrev strict : GroundSettings
strict = record settings { max_telemetry_body_bytes = pos 27 }

abbrev unannounced : Request
unannounced = record request { content_length = none }

abbrev audit_down : Env
audit_down = record up {
  reply = λ call. elim call [ Call.audits ↦ Reply.refused | _ ↦ Reply.answered ];
}

unannounced-IsVendor : IsVendor strict unannounced
unfolding is_ascii
unannounced-IsVendor = (refl, refl)

above_limit : 27 < length (sent unannounced.chunks)
unfolding sent
above_limit = omega arith

abbrev too_large : Rejection strict unannounced
too_large = sent_too_large 27 unannounced-IsVendor refl tt above_limit

receive_payload_data-Refused_example :
    Refused audit_down 413 "BODY_TOO_LARGE" start
      (receive_payload_data audit_down strict unannounced start)
receive_payload_data-Refused_example =
    receive_payload_data-Refused audit_down strict unannounced start too_large

-- A request without a media type is recorded and rejected.
abbrev untyped : Request
untyped = record request { content_type = none }

answer :
    (receive_payload_data up settings untyped start).0
    ≡ ok (respond 400 (rejected_content 1 "INVALID_CONTENT_TYPE"))
unfolding receive_payload_data vendor_is_known compare_digest is_octet_stream canonical_uuid4_of
    int_of is_space decimal_value bytes_eq strip before lower lstrip is_ascii bounded_body find
    replace record_delivery reject_delivery transaction committed
answer = refl

receive_payload_data-Backed_example :
    (receipt : TelemetryDeliveryReceipt) × (get_receipt 1
        (receive_payload_data up settings untyped start).1.db
      ≡ some receipt)
    × (receipt.raw_body ≡ sent untyped.chunks)
receive_payload_data-Backed_example =
    receive_payload_data-Backed up settings untyped 1024 start
      (respond 400 (rejected_content 1 "INVALID_CONTENT_TYPE")) 1 alone refl answer refl

ready : Ready 50 after_outage
unfolding find get
ready = record {
  job = job;
  message = message;
  found = refl;
  named = named;
  unmarked = inl refl;
  can = inl refl;
}

listed : recoverable_queue_jobs 10000 up.now after_outage.db ≡ ok (50 ∷ [])
unfolding recoverable_queue_jobs select order_by insert_by
listed = refl

recover_pending_jobs-Queued_example :
    (count : ℕ) × (v : World) × (recover_pending_jobs (λ n. up) up 10000 after_outage
      ≡ (ok count, v))
    × All (λ i. IsQueued i v) (50 ∷ [])
    × (count ≤ 1)
recover_pending_jobs-Queued_example =
    recover_pending_jobs-Queued (λ n. up) up 10000 after_outage (50 ∷ []) quiet (λ n. quiet) listed
      ((omega arith, ready), tt)

abbrev packet : LogicalTelemetryPacket
packet = record {
  packet_id = packet_id;
  source_receipt_id = 1;
  protocol_version = pos 1;
  payload_id = pos 1;
  boot_id = pos 7;
  sequence_number = pos 3;
  sample_timestamp_us = pos 1767225661000000;
  temperature_centi_c = pos 2150;
  voltage_mv = pos 28000;
  operating_mode = pos 2;
  fault_flags = pos 0;
  raw_sha256 = first.body_sha256;
  sequence_disposition = SequenceDisposition.first;
  missing_before = pos 0;
  accepted_at = 1767225662000001;
}

abbrev accepted : World
accepted = record after_outage { db = record after_outage.db { packets = packet ∷ [] } }

shown :
    (get_raw_payload up settings packet_id (some (codes "Bearer operator")) accepted).0
    ≡ ok (respond 200 (raw_content packet first (some job)))
unfolding get_raw_payload check_message bearer_identity without_prefix compare_digest bytes_eq
    is_ascii full_match packet_pattern is_decimal read_raw with_packet with_source query raw_answer
    find
shown = refl

get_raw_payload-Evidence_example :
    ((identity : Identity) × IsBearer (some (codes "Bearer operator")) settings identity)
    × (full_match packet_pattern packet_id ≡ true)
    × ShowsEvidence packet_id
        (respond 200 (raw_content packet first (some job)))
        (get_raw_payload up settings packet_id (some (codes "Bearer operator")) accepted).1
get_raw_payload-Evidence_example =
    get_raw_payload-Evidence up settings packet_id (some (codes "Bearer operator")) accepted
      (respond 200 (raw_content packet first (some job))) alone shown
