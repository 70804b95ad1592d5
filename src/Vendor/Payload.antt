-- ===== src/Vendor/Payload.antt =====
-- services/vendor_simulator.py: `PayloadSimulator`, its boot identifier in a file, and the damage
-- that a request may ask for.
use cislunar_ground_platform.Base.{
  ℕ, suc, ◌+◌, Bool, not, ◌&&◌, Option, none, some, [], ◌∷◌, ◌++◌, Bytes, bytes_eq, bit_xor, leb,
  ◌==◌, if◌then◌else◌, take, Result, ok, err, ◌>>=◌, ◌>>◌, raise_if, or_raise,
}
use cislunar_ground_platform.Base.Int.{ℤ, pos, pos_part, leb_ℤ, ltb_ℤ}
use cislunar_ground_platform.Std.Format.{format_int}
use cislunar_ground_platform.Std.Struct.{pack}
use cislunar_ground_platform.Std.Text.{is_ascii, strip, int_of}
use cislunar_ground_platform.Telemetry.Codec.{
  CodecError, TelemetryFrame, mode_value, uint32_max, crc32_big_endian, crc32_iso_hdlc,
  telemetry_v1_body_size, encode_telemetry, format_packet_id,
}
use cislunar_ground_platform.Vendor.Readings.{FailureMode, TelemetryRequest, mode_named, scaled}

-- `RuntimeError`, `ValueError`, `OSError`, `IndexError`, `AssertionError`, an exception of the codec,
-- and `HTTPException` with its status.
pub data VendorError : Type 0 where
  runtime_error value_error os_error index_error assertion_error : VendorError
  codec : CodecError → VendorError
  http : ℕ → VendorError

-- The boot identifier's file: nothing, or its text. A write that fails leaves it as it is, since the
-- new text replaces the old at once.
abbrev pub File : Type 0
File = Option Bytes

-- The payload source with its file.
pub record PayloadSimulator : Type 0 where
  pub boot_id : ℕ
  pub next_sequence : ℕ
  pub file : File

-- `persist`, of `_load_next_boot_id`: a decimal line.
unfoldable pub persist : Bool → ℕ → File → Result VendorError (Unit {0}) × File
unfolding format_int
persist writes value file =
    if writes then (ok tt, some (format_int 9 1 (pos value) ++ 10 ∷ [])) else (err os_error, file)

-- The number in the file; an empty text counts as none.
unfoldable pub previous_of : File → Result VendorError ℤ
unfolding is_ascii strip int_of
previous_of none = ok (pos 0)
previous_of (some content) = do
  raise_if (not (is_ascii content)) value_error
  let text = strip content in
      if bytes_eq text [] then ok (pos 0) else or_raise (int_of text) value_error

unfoldable pub checked_previous : File → Result VendorError ℕ
unfolding previous_of
checked_previous file = do
  previous ← previous_of file
  raise_if (not (leb_ℤ (pos 0) previous && ltb_ℤ previous (pos uint32_max))) runtime_error
  ok (pos_part previous)

abbrev pub loaded : ℕ → Result VendorError (Unit {0}) × File → Result VendorError ℕ × File
loaded current (ok done, file) = (ok current, file)
loaded current (err e, file) = (err e, file)

unfoldable pub persist_next : Bool → Result VendorError ℕ → File → Result VendorError ℕ × File
unfolding persist
persist_next writes (err e) file = (err e, file)
persist_next writes (ok previous) file = loaded (suc previous) (persist writes (suc previous) file)

-- `_load_next_boot_id`
unfoldable pub load_next_boot_id : Bool → File → Result VendorError ℕ × File
unfolding checked_previous persist_next
load_next_boot_id writes file = persist_next writes (checked_previous file) file

-- `PayloadSimulator.__init__`
unfoldable pub new_payload : ℕ → File → PayloadSimulator
new_payload boot_id file = record { boot_id = boot_id; next_sequence = 0; file = file }

-- The counter starts again once the boot identifier is written.
unfoldable pub rolled :
    Result VendorError (Unit {0}) × File
    → PayloadSimulator
    → Result VendorError (Unit {0}) × PayloadSimulator
rolled (ok done, file) s = (ok tt, record s { next_sequence = 0; file = file })
rolled (err e, file) s = (err e, record s { file = file })

-- `_roll_session_if_needed`
unfoldable pub roll_session_if_needed :
    Bool → PayloadSimulator → Result VendorError (Unit {0}) × PayloadSimulator
unfolding rolled persist
roll_session_if_needed writes s =
    if leb s.next_sequence uint32_max
    then (ok tt, s)
    else if s.boot_id == uint32_max
    then (err runtime_error, s)
    else rolled (persist writes (suc s.boot_id) s.file) (record s { boot_id = suc s.boot_id })

-- The frame of a request, at a time of the clock and a count.
unfoldable pub frame_of : ℤ → TelemetryRequest → PayloadSimulator → TelemetryFrame
unfolding scaled
frame_of timestamp_us request s = record {
  payload_id = pos 1;
  boot_id = pos s.boot_id;
  sequence_number = pos s.next_sequence;
  timestamp_us = timestamp_us;
  temperature_centi_c = scaled request.temperature_c 100;
  voltage_mv = scaled request.voltage_v 1000;
  operating_mode = mode_value (mode_named request.operating_mode);
  fault_flags = request.fault_flags;
  protocol_version = pos 1;
}

abbrev pub from_codec : {A : Type 0} → Result CodecError A → Result VendorError A
from_codec (ok a) = ok a
from_codec (err e) = err (codec e)

-- The bytes of a frame, with its identifier.
unfoldable pub encoded : TelemetryFrame → Result VendorError (Bytes × Bytes)
unfolding encode_telemetry format_packet_id
encoded frame = do
  raw ← from_codec (encode_telemetry frame none)
  packet_id ← from_codec (format_packet_id frame.payload_id frame.boot_id frame.sequence_number)
  ok (raw, packet_id)

unfoldable pub counted :
    ℤ
    → TelemetryRequest
    → Result VendorError (Unit {0}) × PayloadSimulator
    → Result VendorError (Bytes × Bytes) × PayloadSimulator
unfolding frame_of encoded
counted timestamp_us request (err e, s) = (err e, s)
counted timestamp_us request (ok done, s) =
    (encoded (frame_of timestamp_us request s), record s { next_sequence = s.next_sequence + 1 })

-- A request may ask for a gap.
unfoldable pub skipped : FailureMode → PayloadSimulator → PayloadSimulator
skipped FailureMode.skip_sequence s = record s { next_sequence = s.next_sequence + 1 }
skipped _ s = s

-- `make_frame`
unfoldable pub make_frame :
    Bool
    → ℤ
    → TelemetryRequest
    → PayloadSimulator
    → Result VendorError (Bytes × Bytes) × PayloadSimulator
unfolding skipped roll_session_if_needed counted
make_frame writes timestamp_us request s =
    counted timestamp_us request (roll_session_if_needed writes (skipped request.failure_mode s))

-- `changed[-1] ^= 0x01`; `none` stands for the `IndexError` of an empty array.
unfoldable pub flip_last : Bytes → Option Bytes
flip_last [] = none
flip_last (b ∷ []) = some (bit_xor b 1 ∷ [])
flip_last (b ∷ c ∷ cs) = elim (flip_last (c ∷ cs)) [ none ↦ none | some ds ↦ some (b ∷ ds) ]

-- `changed[0] = 2` with the checksum of the changed body.
unfoldable pub as_version_2 : Bytes → Option Bytes
as_version_2 [] = none
as_version_2 (b ∷ bs) =
    let body = take telemetry_v1_body_size (2 ∷ bs) in
    elim (pack crc32_big_endian (pos (crc32_iso_hdlc body) ∷ [])) [
      | none ↦ none
      | some checksum ↦ some (body ++ checksum)
    ]

-- `_apply_wire_failure`
unfoldable pub apply_wire_failure : Bytes → FailureMode → Option Bytes
unfolding flip_last as_version_2
apply_wire_failure raw FailureMode.corrupt_crc = flip_last raw
apply_wire_failure raw FailureMode.unsupported_version = as_version_2 raw
apply_wire_failure raw _ = some raw
