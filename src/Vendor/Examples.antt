-- ===== src/Vendor/Examples.antt =====
-- services/vendor_simulator.py: concrete requests, histories and posts.
use cislunar_ground_platform.Base.{
  Result, ℕ, true, false, none, some, List, [], ◌∷◌, ◌+◌, Bytes, ok, err, ◌≡◌, ◌≢◌, refl, arith,
}
use cislunar_ground_platform.Base.Int.{pos, negsuc, ◌+ℤ◌, ◌-ℤ◌}
use cislunar_ground_platform.Std.Datetime.{utc}
use cislunar_ground_platform.Std.Text.{strip, codes}
use cislunar_ground_platform.Telemetry.Codec.{
  crc_mismatch, unsupported_protocol_version, decode_telemetry,
}
use cislunar_ground_platform.Base.{bytes_eq, Result, ap}
use mathlib.Core.List.{append-nil}
use cislunar_ground_platform.Std.Text.{compare_digest, strip, before, lower, lstrip, is_ascii}
use cislunar_ground_platform.Std.Unicode.{is_space}
use cislunar_ground_platform.Telemetry.Settings.{GroundSettings, VendorSettings}
use cislunar_ground_platform.Telemetry.Storage.Records.{Json, Uuid, TelemetryDeliveryReceipt}
use cislunar_ground_platform.Telemetry.Storage.Tables.{empty_db, find, replace, get_receipt}
use cislunar_ground_platform.Telemetry.Storage.Deliveries.{record_delivery, reject_delivery}
use cislunar_ground_platform.Telemetry.Storage.History.{Run, here}
use cislunar_ground_platform.Telemetry.World.{World}
use cislunar_ground_platform.GroundApi.Requests.{
  Request, vendor_is_known, canonical_uuid4_of, is_octet_stream, bounded_body,
}
use cislunar_ground_platform.GroundApi.Bodies.{sent}
use cislunar_ground_platform.GroundApi.Calls.{Reply, Env, transaction, committed}
use cislunar_ground_platform.GroundApi.Responses.{rejected_content}
use cislunar_ground_platform.GroundApi.Delivery.{receive_payload_data}
use cislunar_ground_platform.GroundApi.Naming.{named_receipt}
use cislunar_ground_platform.Vendor.Forwarding.{
  Post, HttpResponse, ForwardError, unreachable, forward,
}
use cislunar_ground_platform.Vendor.Ground.{Trip, ground_client}
use cislunar_ground_platform.Vendor.Handoff.{forward-IsBacked}
use cislunar_ground_platform.Vendor.Readings.{
  Decimal, TelemetryRequest, OperatingModeName, FailureMode, scaled, is_allowed,
}
use cislunar_ground_platform.Vendor.Payload.{
  PayloadSimulator, frame_of, roll_session_if_needed, skipped, make_frame,
}
use cislunar_ground_platform.Vendor.Frames.{message_id_of, IsRefused, make_frame-decodes}
use cislunar_ground_platform.Vendor.Sessions.{
  Event, starts, makes, stopped, message_ids, AllDifferent, message_ids-Different,
}

abbrev decimal : ℕ → ℕ → Decimal
decimal n p = record { numerator = pos n; places = p }

abbrev request : TelemetryRequest
request = record {
  temperature_c = decimal 284 1;
  voltage_v = decimal 281 1;
  operating_mode = OperatingModeName.science;
  fault_flags = pos 0;
  failure_mode = FailureMode.skip_sequence;
}

-- 28.4 is 2840 hundredths; 0.125 rounds up to 13 of them and -0.125 down.
test_hundredths : scaled (decimal 284 1) 100 ≡ pos 2840
unfolding scaled
test_hundredths = refl

test_half : scaled (decimal 125 3) 100 ≡ pos 13
unfolding scaled
test_half = refl

test_negative_half : scaled (record { numerator = negsuc 124; places = 3 }) 100 ≡ negsuc 12
unfolding scaled
test_negative_half = refl

abbrev payload : PayloadSimulator
payload = record { boot_id = 7; next_sequence = 2; file = none }

abbrev at_three : PayloadSimulator
at_three = record payload { next_sequence = 3 }

allowed : is_allowed request ≡ true
unfolding is_allowed
allowed = refl

rolls : roll_session_if_needed true (skipped request.failure_mode payload) ≡ (ok tt, at_three)
unfolding roll_session_if_needed skipped
rolls = refl

make_frame-decodes_example :
    (raw : Bytes) × (make_frame true (pos 1767225661000000) request payload
      ≡ (ok (raw, message_id_of at_three), record at_three { next_sequence = 3 + 1 }))
    × (decode_telemetry raw (utc 1767225662000000)
        ≡ ok (frame_of (pos 1767225661000000) request at_three))
    × IsRefused raw FailureMode.corrupt_crc crc_mismatch (utc 1767225662000000)
    × IsRefused raw FailureMode.unsupported_version unsupported_protocol_version
        (utc 1767225662000000)
unfolding ◌-ℤ◌
make_frame-decodes_example =
    make_frame-decodes true (pos 1767225661000000) request payload at_three (utc 1767225662000000)
      allowed (omega arith, omega arith) rolls (omega arith, omega arith, omega arith)
      (pos 0, refl, unfold frame_of ◌+ℤ◌ in omega arith)

-- Two frames, a start whose write fails, a start, and a third frame.
abbrev events : List Event
events =
    starts true
    ∷ makes true (pos 1767225661000000) request
    ∷ makes true (pos 1767225662000000) request
    ∷ starts false
    ∷ starts true
    ∷ makes true (pos 1767225663000000) request
    ∷ []

message_ids-Different_example : AllDifferent (message_ids events (stopped none))
message_ids-Different_example = message_ids-Different events none

-- The request of the frame has no identifier, so the ground records it and refuses it.
abbrev unnamed : Post → Request
unnamed post = record {
  vendor_token = some post.vendor_token;
  request_id = none;
  content_length = none;
  content_type = some post.content_type;
  chunks = post.content ∷ [];
}

abbrev no_text : Json → Bytes
no_text content = []

abbrev settings : GroundSettings
settings = record {
  vendor_token = codes "vendor";
  operator_token = codes "operator";
  admin_token = codes "admin";
  max_telemetry_body_bytes = pos 1024;
  processing_maximum_attempts = pos 3;
}

abbrev vendor : VendorSettings
vendor = record {
  ground_api_url = codes "http://ground";
  vendor_token = codes "vendor";
  boot_id_file = codes "boot";
  interval_is_negative = false;
}

abbrev start : World
start = record {
  redis = record { pending = []; processing = []; failed = []; markers = [] };
  db = empty_db;
}

abbrev up : Env
up = record {
  received_at = 1767225662000000;
  now = 1767225662000001;
  fresh_receipt = 1;
  fresh_job = 50;
  reply = λ call. Reply.answered;
  others = λ call w. w;
}

-- The first post is lost, the second is answered.
abbrev trips : List Trip
trips =
    record { arrives = false; env = up; returns = true }
    ∷ record { arrives = true; env = up; returns = true }
    ∷ []

abbrev sent_on : Result ForwardError HttpResponse × (List Trip × World)
sent_on = forward (ground_client unnamed no_text settings) vendor (1 ∷ 2 ∷ 3 ∷ []) 77 (trips, start)

abbrev refused : Result ForwardError HttpResponse
refused =
    ok (record {
      status_code = 400;
      json = some (rejected_content 1 "INVALID_REQUEST_ID");
      text = [];
    })

refusal : sent_on.0 ≡ refused
unfolding forward ground_client receive_payload_data vendor_is_known compare_digest is_octet_stream
    canonical_uuid4_of is_space bytes_eq strip before lower lstrip is_ascii bounded_body find
    replace record_delivery reject_delivery transaction committed
refusal = refl

forward-IsBacked_example :
    Run start.db sent_on.1.1.db
    × (refused ≢ err unreachable)
    × ((response : HttpResponse) (content : Json) (i : Uuid)
        → refused ≡ ok response
        → response.json ≡ some content
        → named_receipt content ≡ some i
        → (receipt : TelemetryDeliveryReceipt) × (get_receipt i sent_on.1.1.db ≡ some receipt)
          × (receipt.raw_body ≡ 1 ∷ 2 ∷ 3 ∷ []))
forward-IsBacked_example =
    forward-IsBacked unnamed no_text settings 1024 refl
      (λ post. unfold sent in append-nil post.content) vendor (1 ∷ 2 ∷ 3 ∷ []) 77 trips start
      sent_on.1.1 refused sent_on.1.0 ((λ call w. here), ((λ call w. here), tt))
      (ap (λ r. (r, sent_on.1)) refusal)
