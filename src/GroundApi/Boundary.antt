-- ===== src/GroundApi/Boundary.antt =====
-- services/ground_api.py: requests that are refused before their delivery is recorded.
use cislunar_ground_platform.Base.{
  [], ◌∷◌, ℕ, ◌<◌, true, false, none, some, Bytes, bytes_eq, bytes_eq_refl, bytes_eq→eq, String,
  Result, ok, err, length, ◌≡◌, ◌≢◌, refl, inl, inr, Bool-cases,
}
use cislunar_ground_platform.Base.Int.{ℤ, pos, ltb_ℤ}
use cislunar_ground_platform.Std.Text.{int_of, is_ascii, compare_digest}
use cislunar_ground_platform.Telemetry.Settings.{GroundSettings}
use cislunar_ground_platform.Telemetry.Storage.Records.{Value, TelemetryAuditEvent}
use cislunar_ground_platform.Telemetry.Storage.Tables.{add_audit}
use cislunar_ground_platform.Telemetry.Storage.Queries.{record_audit_event}
use cislunar_ground_platform.Telemetry.World.{World}
use cislunar_ground_platform.GroundApi.Requests.{
  ApiError, http, Request, vendor_is_known, bounded_body,
}
use cislunar_ground_platform.GroundApi.Bodies.{
  Allows, sent, bounded_body_beyond, bounded_body_announced, bounded_body_unreadable,
}
use cislunar_ground_platform.GroundApi.Calls.{Call, Reply, Env, and_then, committed, transaction}
use cislunar_ground_platform.GroundApi.Responses.{Response, respond, suppress_database}
use cislunar_ground_platform.GroundApi.Delivery.{
  audit_safely, refuse, with_body, after_authentication, receive_payload_data,
}

-- The request shows the vendor's token.
abbrev pub IsVendor : GroundSettings → Request → Type 0
IsVendor settings request =
    (request.vendor_token ≡ some settings.vendor_token) × (is_ascii settings.vendor_token ≡ true)

-- Why a request is refused at the boundary: it shows no token or, in ASCII, another one than the
-- vendor's; or the vendor's request has a length that is no integer, announces more than the limit, or
-- sends more than the limit.
pub data Rejection (settings : GroundSettings) (request : Request) : Type 0 where
  no_token : request.vendor_token ≡ none → Rejection settings request
  other_token :
      (token : Bytes)
      → request.vendor_token ≡ some token
      → is_ascii token ≡ true
      → is_ascii settings.vendor_token ≡ true
      → token ≢ settings.vendor_token
      → Rejection settings request
  unreadable_length :
      (most : ℕ) (header : Bytes)
      → IsVendor settings request
      → settings.max_telemetry_body_bytes ≡ pos most
      → request.content_length ≡ some header
      → int_of header ≡ none
      → Rejection settings request
  announced_too_large :
      (most : ℕ) (header : Bytes) (size : ℤ)
      → IsVendor settings request
      → settings.max_telemetry_body_bytes ≡ pos most
      → request.content_length ≡ some header
      → int_of header ≡ some size
      → ltb_ℤ (pos most) size ≡ true
      → Rejection settings request
  sent_too_large :
      (most : ℕ)
      → IsVendor settings request
      → settings.max_telemetry_body_bytes ≡ pos most
      → Allows most request.content_length
      → most < length (sent request.chunks)
      → Rejection settings request

module _ {settings : GroundSettings} {request : Request} where
  abbrev pub status_of : Rejection settings request → ℕ
  status_of (no_token absent) = 401
  status_of (other_token token shown plain own differs) = 401
  status_of (unreadable_length most header vendor limit shown unread) = 400
  status_of (announced_too_large most header size vendor limit shown read large) = 413
  status_of (sent_too_large most vendor limit allowed large) = 413

  abbrev pub reason_of : Rejection settings request → String
  reason_of (no_token absent) = "INVALID_VENDOR_TOKEN"
  reason_of (other_token token shown plain own differs) = "INVALID_VENDOR_TOKEN"
  reason_of (unreadable_length most header vendor limit shown unread) = "INVALID_CONTENT_LENGTH"
  reason_of (announced_too_large most header size vendor limit shown read large) = "BODY_TOO_LARGE"
  reason_of (sent_too_large most vendor limit allowed large) = "BODY_TOO_LARGE"

-- What a refusal leaves: nothing new where the audit event could not be written, else the event.
abbrev pub Audits : Reply → String → World → World → Type 0
Audits Reply.refused reason w w' = w' ≡ w
Audits _ reason w w' =
    (event : TelemetryAuditEvent) × (event.reason ≡ some reason)
    × (w' ≡ record w { db = add_audit event w.db })

-- A rejection with this status and reason, which leaves both stores alone but for the audit trail.
abbrev pub Refused : Env → ℕ → String → World → Result ApiError Response × World → Type 0
Refused env status_code reason w r =
    (r.0
      ≡ ok (
          respond status_code
            (("status", Value.text "REJECTED") ∷ ("reason", Value.text reason) ∷ [])))
    × Audits (env.reply Call.audits) reason (env.others Call.audits w) r.1

-- The audit event is written, or not, and the refusal is the same.
audited :
    (reply : Reply) (event : TelemetryAuditEvent) (status_code : ℕ) (reason : String) (w : World)
    (r : Result ApiError Response × World)
    → event.reason ≡ some reason
    → r
      ≡ and_then (suppress_database (committed reply (ok (tt, add_audit event w.db)) w)) (λ done u.
        (
          ok (
              respond status_code
                (("status", Value.text "REJECTED") ∷ ("reason", Value.text reason) ∷ [])),
          u,
        ))
    → (r.0
        ≡ ok (
            respond status_code
              (("status", Value.text "REJECTED") ∷ ("reason", Value.text reason) ∷ [])))
      × Audits reply reason w r.1
unfolding committed
audited Reply.answered event status_code reason w r about e = rw e (refl, (event, about, refl))
audited Reply.refused event status_code reason w r about e = rw e (refl, refl)
audited Reply.lost event status_code reason w r about e = rw e (refl, (event, about, refl))

refuse-Refused :
    (env : Env) (event : TelemetryAuditEvent) (status_code : ℕ) (reason : String) (w : World)
    → event.reason ≡ some reason
    → Refused env status_code reason w (refuse env event status_code reason w)
unfolding refuse audit_safely transaction record_audit_event
refuse-Refused env event status_code reason w about =
    audited (env.reply Call.audits) event status_code reason (env.others Call.audits w) _ about refl

vendor_known :
    (settings : GroundSettings) (request : Request)
    → IsVendor settings request
    → vendor_is_known request settings ≡ ok true
unfolding vendor_is_known compare_digest
vendor_known settings request (shown, plain) =
    rw (shown, plain, bytes_eq_refl settings.vendor_token) refl

vendor_unknown :
    (settings : GroundSettings) (request : Request) (token : Bytes)
    → request.vendor_token ≡ some token
    → is_ascii token ≡ true
    → is_ascii settings.vendor_token ≡ true
    → token ≢ settings.vendor_token
    → vendor_is_known request settings ≡ ok false
unfolding vendor_is_known compare_digest
vendor_unknown settings request token shown plain own differs =
    elim (Bool-cases (bytes_eq token settings.vendor_token)) [
      | inl same ↦ absurd (differs (bytes_eq→eq token settings.vendor_token same))
      | inr other ↦ rw (shown, plain, own, other) refl
    ]

stranger_missing :
    (settings : GroundSettings) (request : Request)
    → request.vendor_token ≡ none
    → vendor_is_known request settings ≡ ok false
unfolding vendor_is_known
stranger_missing settings request absent = rw absent refl

module _ (env : Env) (settings : GroundSettings) (request : Request) (w : World) where
  stranger-Refused :
      vendor_is_known request settings ≡ ok false
      → Refused env 401 "INVALID_VENDOR_TOKEN" w (receive_payload_data env settings request w)
  unfolding receive_payload_data after_authentication
  stranger-Refused unknown = rw unknown (refuse-Refused env _ 401 "INVALID_VENDOR_TOKEN" w refl)

  unreadable-Refused :
      (most : ℕ)
      → IsVendor settings request
      → settings.max_telemetry_body_bytes ≡ pos most
      → bounded_body request (pos most) ≡ err (http 400)
      → Refused env 400 "INVALID_CONTENT_LENGTH" w (receive_payload_data env settings request w)
  unfolding receive_payload_data after_authentication with_body
  unreadable-Refused most vendor limit unread =
      rw (vendor_known settings request vendor, limit, unread, with_body)
        (refuse-Refused env _ 400 "INVALID_CONTENT_LENGTH" w refl)

  large-Refused :
      (most : ℕ)
      → IsVendor settings request
      → settings.max_telemetry_body_bytes ≡ pos most
      → bounded_body request (pos most) ≡ err (http 413)
      → Refused env 413 "BODY_TOO_LARGE" w (receive_payload_data env settings request w)
  unfolding receive_payload_data after_authentication with_body
  large-Refused most vendor limit large =
      rw (vendor_known settings request vendor, limit, large, with_body)
        (refuse-Refused env _ 413 "BODY_TOO_LARGE" w refl)

-- A request that shows no vendor's token, or in ASCII another than the vendor's, is refused with 401;
-- the vendor's request is refused with 400 if its length is no integer, and with 413 if it announces
-- more than the limit or sends more. No delivery is recorded, and no packet, no job and no entry of
-- the queue is made: beside what other services do before the audit, the only change is the audit
-- event with the reason, and if that cannot be written the answer is the same and nothing is changed.
pub receive_payload_data-Refused :
    (env : Env) (settings : GroundSettings) (request : Request) (w : World)
    (why : Rejection settings request)
    → Refused env (status_of why) (reason_of why) w (receive_payload_data env settings request w)
receive_payload_data-Refused env settings request w (no_token absent) =
    stranger-Refused env settings request w (stranger_missing settings request absent)
receive_payload_data-Refused env settings request w (other_token token shown plain own differs) =
    stranger-Refused env settings request w
      (vendor_unknown settings request token shown plain own differs)
receive_payload_data-Refused env settings request w
      (unreadable_length most header vendor limit shown unread) =
    unreadable-Refused env settings request w most vendor limit
      (bounded_body_unreadable request most header shown unread)
receive_payload_data-Refused env settings request w
      (announced_too_large most header size vendor limit shown read large) =
    large-Refused env settings request w most vendor limit
      (bounded_body_announced request most header size shown read large)
receive_payload_data-Refused env settings request w
      (sent_too_large most vendor limit allowed large) =
    large-Refused env settings request w most vendor limit
      (bounded_body_beyond request most allowed large)
