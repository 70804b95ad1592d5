-- ===== src/Vendor/Forwarding.antt =====
-- services/vendor_simulator.py: `VendorForwarder` and `submit_telemetry`. The HTTP client is an
-- argument, with a state of its own; waiting between attempts and logging are left out.
use cislunar_ground_platform.Base.{
  ℕ, zero, suc, ◌+◌, Bool, ◌||◌, Option, none, some, [], ◌∷◌, ◌++◌, Bytes, String, ltb, ◌==◌,
  if◌then◌else◌, take, Result, ok, err,
}
use cislunar_ground_platform.Base.Int.{ℤ, pos}
use cislunar_ground_platform.Std.Text.{codes}
use cislunar_ground_platform.Std.Uuid.{uuid_text, hex}
use cislunar_ground_platform.Telemetry.Settings.{VendorSettings}
use cislunar_ground_platform.Telemetry.Storage.Records.{Uuid, Value, Json}
use cislunar_ground_platform.Vendor.Readings.{FailureMode, OperatingModeName, TelemetryRequest}
use cislunar_ground_platform.Vendor.Payload.{
  VendorError, index_error, assertion_error, http, File, PayloadSimulator, load_next_boot_id,
  new_payload, make_frame, apply_wire_failure,
}

-- One post to the ground, with its headers.
pub record Post : Type 0 where
  pub url : Bytes
  pub content : Bytes
  pub content_type : String
  pub request_id : Bytes
  pub vendor_token : Bytes

-- A response with its text and what its text reads as, if that is JSON.
pub record HttpResponse : Type 0 where
  pub status_code : ℕ
  pub json : Option Json
  pub text : Bytes

-- The exceptions of the client, and the one for a state that is not reached.
pub data ForwardError : Type 0 where
  http_error : ForwardError
  unreachable : ForwardError

abbrev pub Client : Type 0 → Type 0
Client S = Post → S → Result ForwardError HttpResponse × S

unfoldable pub post_of : VendorSettings → Bytes → Uuid → Post
post_of settings raw request_id = record {
  url = settings.ground_api_url ++ codes "/vendor/payload-data";
  content = raw;
  content_type = "application/octet-stream";
  request_id = uuid_text request_id;
  vendor_token = settings.vendor_token;
}

-- What an attempt leads to; `retry` is the next one.
unfoldable pub after_attempt :
    {S : Type 0}
    → ℕ
    → Result ForwardError HttpResponse × S
    → (S → Result ForwardError HttpResponse × S)
    → Result ForwardError HttpResponse × S
after_attempt attempt (ok response, s) retry =
    if ltb response.status_code 500 || attempt == 3 then (ok response, s) else retry s
after_attempt attempt (err e, s) retry = if attempt == 3 then (err e, s) else retry s

-- The loop over the attempts that are left, from one on.
unfoldable pub attempts :
    {S : Type 0} → Client S → Post → ℕ → ℕ → S → Result ForwardError HttpResponse × S
unfolding after_attempt
attempts client post zero attempt s = (err unreachable, s)
attempts client post (suc left) attempt s =
    after_attempt attempt (client post s) (attempts client post left (attempt + 1))

-- `forward`: range(1, 4)
unfoldable pub forward :
    {S : Type 0}
    → Client S
    → VendorSettings
    → Bytes
    → Uuid
    → S
    → Result ForwardError HttpResponse × S
unfolding attempts post_of
forward client settings raw request_id = attempts client (post_of settings raw request_id) 3 1

-- `app.state`
pub record AppState : Type 0 where
  pub payload : PayloadSimulator
  pub last_raw : Option Bytes
  pub last_message_id : Option Bytes

-- `lifespan`
unfoldable pub started : Result VendorError ℕ × File → Result VendorError AppState × File
unfolding new_payload
started (ok boot_id, file) = (
  ok (record { payload = new_payload boot_id file; last_raw = none; last_message_id = none }),
  file,
)
started (err e, file) = (err e, file)

unfoldable pub lifespan : Bool → File → Result VendorError AppState × File
unfolding load_next_boot_id started
lifespan writes file = started (load_next_boot_id writes file)

-- What may be sent again later: frames without damage.
abbrev pub remembered : FailureMode → Bytes → Bytes → AppState → AppState
remembered FailureMode.no_failure raw message_id app = record app {
  last_raw = some raw;
  last_message_id = some message_id;
}
remembered FailureMode.skip_sequence raw message_id app = record app {
  last_raw = some raw;
  last_message_id = some message_id;
}
remembered _ raw message_id app = app

-- The frame with its damage.
unfoldable pub damaged :
    FailureMode
    → Bytes
    → Option Bytes
    → AppState
    → Result VendorError (Bytes × Option Bytes) × AppState
damaged mode message_id none app = (err index_error, app)
damaged mode message_id (some raw) app =
    (ok (raw, some message_id), remembered mode raw message_id app)

unfoldable pub after_frame :
    FailureMode
    → Result VendorError (Bytes × Bytes) × PayloadSimulator
    → AppState
    → Result VendorError (Bytes × Option Bytes) × AppState
unfolding apply_wire_failure damaged
after_frame mode (err e, payload) app = (err e, record app { payload = payload })
after_frame mode (ok (raw, message_id), payload) app =
    damaged mode message_id (apply_wire_failure raw mode) (record app { payload = payload })

-- The last frame once more.
unfoldable pub repeated : AppState → Result VendorError (Bytes × Option Bytes)
repeated app = elim app.last_raw [
  | none ↦ err (http 409)
  | some raw ↦ ok (raw, app.last_message_id)
]

-- `submit_telemetry` under the lock.
unfoldable pub prepare :
    Bool → ℤ → TelemetryRequest → AppState → Result VendorError (Bytes × Option Bytes) × AppState
unfolding repeated make_frame after_frame
prepare writes timestamp_us request app = elim request.failure_mode [
  | FailureMode.duplicate_last ↦ (repeated app, app)
  | mode ↦ after_frame mode (make_frame writes timestamp_us request app.payload) app
]

pub record Submitted : Type 0 where
  pub message_id : Option Bytes
  pub request_id : Bytes
  pub raw_hex : Bytes
  pub ground_status : ℕ
  pub ground_response : Json

abbrev pub response_body : HttpResponse → Json
response_body response = elim response.json [
  | some body ↦ body
  | none ↦ ("detail", Value.code_points (take 500 response.text)) ∷ []
]

-- `submit_telemetry` after the forwarding.
unfoldable pub submitted :
    Bytes → Option Bytes → Uuid → Result ForwardError HttpResponse → Result VendorError Submitted
submitted raw message_id request_id (ok response) = ok (record {
  message_id = message_id;
  request_id = uuid_text request_id;
  raw_hex = hex raw;
  ground_status = response.status_code;
  ground_response = response_body response;
})
submitted raw message_id request_id (err http_error) = err (http 502)
submitted raw message_id request_id (err unreachable) = err assertion_error

module _ {S : Type 0} (client : Client S) (settings : VendorSettings) where
  unfoldable pub hand_over :
      Uuid
      → Result VendorError (Bytes × Option Bytes) × AppState
      → S
      → Result VendorError Submitted × (AppState × S)
  unfolding forward submitted
  hand_over request_id (err e, app) s = (err e, (app, s))
  hand_over request_id (ok (raw, message_id), app) s =
      let sent = forward client settings raw request_id s in
      (submitted raw message_id request_id sent.0, (app, sent.1))

  -- `submit_telemetry`
  unfoldable pub submit_telemetry :
      Bool
      → ℤ
      → Uuid
      → TelemetryRequest
      → AppState
      → S
      → Result VendorError Submitted × (AppState × S)
  unfolding prepare hand_over
  submit_telemetry writes timestamp_us request_id request app s =
      hand_over request_id (prepare writes timestamp_us request app) s

  -- The request of `_automatic_loop`, and one turn of it: exceptions are dropped.
  unfoldable pub automatic_turn : Bool → ℤ → Uuid → AppState → S → AppState × S
  unfolding submit_telemetry
  automatic_turn writes timestamp_us request_id app s =
      (submit_telemetry writes timestamp_us request_id
        (record {
          temperature_c = record { numerator = pos 284; places = 1 };
          voltage_v = record { numerator = pos 281; places = 1 };
          operating_mode = OperatingModeName.science;
          fault_flags = pos 0;
          failure_mode = FailureMode.no_failure;
        })
        app s).1
