-- ===== src/Vendor/Frames.antt =====
-- services/vendor_simulator.py: the frames that `make_frame` gives, as the ground reads them.
use cislunar_ground_platform.Base.{
  ℕ, ◌+◌, ◌-◌, ◌^◌, ◌≤◌, ◌≡◌, refl, Bool, true, none, some, Bytes, ok, err, arith,
}
use cislunar_ground_platform.Base.Int.{ℤ, pos, ◌≤ℤ◌}
use cislunar_ground_platform.Std.Datetime.{Datetime}
use cislunar_ground_platform.Telemetry.Codec.{
  TelemetryRejectionReason, rejected, crc_mismatch, unsupported_protocol_version, project_epoch_us,
  uint32_max, encode_telemetry, decode_telemetry, format_packet_id, packet_id_text,
}
use cislunar_ground_platform.Telemetry.Codec.Validation.{IsValid, IsTimely, mode_value-bounds}
use cislunar_ground_platform.Telemetry.Codec.Encoding.{encode_telemetry_total}
use cislunar_ground_platform.Telemetry.Codec.RoundTrip.{decode-encode}
use cislunar_ground_platform.Vendor.Readings.{TelemetryRequest, FailureMode, is_allowed, mode_named}
use cislunar_ground_platform.Vendor.Payload.{
  PayloadSimulator, frame_of, encoded, counted, skipped, roll_session_if_needed, make_frame,
  apply_wire_failure,
}
use cislunar_ground_platform.Vendor.Scaling.{temperature_lem, voltage_lem}
use cislunar_ground_platform.Vendor.Damage.{corrupt_crc-Rejected, unsupported_version-Rejected}

-- The clock shows a time that a frame can hold.
abbrev pub IsClock : ℤ → Type 0
IsClock t = (pos project_epoch_us ≤ℤ t) × (t ≤ℤ pos (2 ^ 64 - 1))

-- The identifiers are in their ranges.
abbrev pub InRange : PayloadSimulator → Type 0
InRange s = (1 ≤ s.boot_id) × (s.boot_id ≤ uint32_max) × (s.next_sequence ≤ uint32_max)

frame_of-IsValid :
    (t : ℤ) (request : TelemetryRequest) (s : PayloadSimulator)
    → IsClock t
    → is_allowed request ≡ true
    → InRange s
    → IsValid (frame_of t request s) none
unfolding frame_of is_allowed
frame_of-IsValid t request s clock allowed range =
    let (cold, hot) = temperature_lem request.temperature_c (ground arith) in
    let (low, high) = voltage_lem request.voltage_v (ground arith) in
    let (first, last) = mode_value-bounds (mode_named request.operating_mode) in
    (
      record {
        version = refl;
        payload = refl;
        boot_low = omega arith;
        boot_high = omega arith;
        sequence_low = omega arith;
        sequence_high = omega arith;
        timestamp_low = clock.0;
        timestamp_high = clock.1;
      },
      tt,
      record {
        temperature_low = cold;
        temperature_high = hot;
        voltage_low = low;
        voltage_high = high;
        mode_low = first;
        mode_high = last;
        faults_low = ground arith;
        faults_high = ground arith;
      },
    )

format_packet_id_fits :
    (b s : ℕ)
    → b ≤ uint32_max
    → s ≤ uint32_max
    → format_packet_id (pos 1) (pos b) (pos s) ≡ ok (packet_id_text (pos 1) (pos b) (pos s))
unfolding format_packet_id
format_packet_id_fits b s hb hs = ground arith

-- The text that names a frame.
abbrev pub message_id_of : PayloadSimulator → Bytes
message_id_of s = packet_id_text (pos 1) (pos s.boot_id) (pos s.next_sequence)

encoded_lem :
    (t : ℤ) (request : TelemetryRequest) (s : PayloadSimulator)
    → IsClock t
    → is_allowed request ≡ true
    → InRange s
    → (raw : Bytes) × (encode_telemetry (frame_of t request s) none ≡ ok raw)
      × (encoded (frame_of t request s) ≡ ok (raw, message_id_of s))
unfolding encoded
encoded_lem t request s clock allowed range =
    let (raw, e, n) =
      (encode_telemetry_total (frame_of t request s) none).0
        (frame_of-IsValid t request s clock allowed range) in
    let f = frame_of t request s in
    let named : format_packet_id f.payload_id f.boot_id f.sequence_number ≡ ok (message_id_of s) =
      unfold frame_of in format_packet_id_fits s.boot_id s.next_sequence range.1 range.2 in
    (raw, e, rw (e, named) refl)

-- A frame that was damaged is not decoded, and the ground names the damage.
abbrev pub IsRefused : Bytes → FailureMode → TelemetryRejectionReason → Datetime → Type 0
IsRefused raw mode reason r =
    (damaged : Bytes) × (apply_wire_failure raw mode ≡ some damaged)
    × (decode_telemetry damaged r ≡ err (rejected reason))

-- An allowed request makes a frame under the next identifiers, which the source then counts. The
-- ground decodes its bytes to that frame, with the values of the request in wire units, where it is
-- timely; it refuses the frame with a damaged checksum for the checksum, and the frame of another
-- version for the version.
pub make_frame-decodes :
    (writes : Bool) (t : ℤ) (request : TelemetryRequest) (s u : PayloadSimulator) (r : Datetime)
    → is_allowed request ≡ true
    → IsClock t
    → roll_session_if_needed writes (skipped request.failure_mode s) ≡ (ok tt, u)
    → InRange u
    → IsTimely (frame_of t request u) (some r)
    → (raw : Bytes) × (make_frame writes t request s
        ≡ (ok (raw, message_id_of u), record u { next_sequence = u.next_sequence + 1 }))
      × (decode_telemetry raw r ≡ ok (frame_of t request u))
      × IsRefused raw FailureMode.corrupt_crc crc_mismatch r
      × IsRefused raw FailureMode.unsupported_version unsupported_protocol_version r
unfolding make_frame counted
make_frame-decodes writes t request s u r allowed clock rolls range timely =
    let (raw, e, made) = encoded_lem t request u clock allowed range in
    (
      raw,
      rw (rolls, made) refl,
      decode-encode (frame_of t request u) raw none r e timely,
      corrupt_crc-Rejected (frame_of t request u) raw r e,
      unsupported_version-Rejected (frame_of t request u) raw r e,
    )
