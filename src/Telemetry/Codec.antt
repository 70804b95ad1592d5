-- ===== src/Telemetry/Codec.antt =====
-- mission_ground/telemetry/codec.py: the 28-byte telemetry frame of protocol version 1.
-- Python's integers are unbounded and signed, so each field is an integer and the ranges are
-- what `_validate_fields` checks. The texts of the exceptions are left out.
pub mod Validation
pub mod RoundTrip
pub mod Encoding
pub mod PacketId
mod Examples
use cislunar_ground_platform.Base.{
  ℕ, ◌+◌, ◌-◌, ◌*◌, ◌/◌, ◌%◌, ◌^◌, Bool, true, false, not, ◌&&◌, Option, none, some, List, [], ◌∷◌,
  ◌++◌, Bytes, bit_and, ltb, leb, ◌==◌, if◌then◌else◌, length, take, drop, Result, ok, err, ◌>>=◌,
  ◌>>◌, raise_if, or_raise,
}
use cislunar_ground_platform.Base.Int.{
  ℤ, pos, negsuc, ◌+ℤ◌, ltb_ℤ, leb_ℤ, eqb_ℤ, pos_part, neg_part,
}
use cislunar_ground_platform.Std.Struct.{Field, unsigned, signed, Format, pack, unpack}
use cislunar_ground_platform.Std.Zlib.{crc32}
use cislunar_ground_platform.Std.Datetime.{Datetime, since_epoch_us}
use cislunar_ground_platform.Std.Format.{format_int}

abbrev pub protocol_version_1 : ℕ
protocol_version_1 = 1

abbrev pub supported_payload_id : ℕ
supported_payload_id = 1

-- ">BBIIQhHBB"
abbrev pub telemetry_v1_body : Format
telemetry_v1_body =
    unsigned 1
    ∷ unsigned 1
    ∷ unsigned 4
    ∷ unsigned 4
    ∷ unsigned 8
    ∷ signed 2
    ∷ unsigned 2
    ∷ unsigned 1
    ∷ unsigned 1
    ∷ []

-- ">I"
abbrev pub crc32_big_endian : Format
crc32_big_endian = unsigned 4 ∷ []

abbrev pub telemetry_v1_body_size : ℕ
telemetry_v1_body_size = 24

abbrev pub telemetry_v1_frame_size : ℕ
telemetry_v1_frame_size = 28

abbrev pub uint32_max : ℕ
uint32_max = 2 ^ 32 - 1

-- 2026-01-01T00:00:00Z
abbrev pub project_epoch_us : ℕ
project_epoch_us = 1767225600 * 1000000

abbrev pub max_future_skew_us : ℕ
max_future_skew_us = 5 * 60 * 1000000

abbrev pub reserved_fault_mask : ℕ
reserved_fault_mask = 0xC0

pub data OperatingMode : Type 0 where
  safe standby science calibration : OperatingMode

-- An `IntEnum` member is its number.
abbrev pub mode_value : OperatingMode → ℤ
mode_value safe = pos 0
mode_value standby = pos 1
mode_value science = pos 2
mode_value calibration = pos 3

-- `OperatingMode(value)`; `none` stands for the `ValueError`.
pub operating_mode_of : ℤ → Option OperatingMode
operating_mode_of (pos n) =
    if n == 0
    then some safe
    else if n == 1
    then some standby
    else if n == 2
    then some science
    else if n == 3
    then some calibration
    else none
operating_mode_of (negsuc n) = none

pub data TelemetryRejectionReason : Type 0 where
  empty_body unsupported_protocol_version invalid_frame_length crc_mismatch :
      TelemetryRejectionReason
  unsupported_payload_id invalid_boot_id : TelemetryRejectionReason
  timestamp_before_project_epoch timestamp_too_far_in_future : TelemetryRejectionReason
  temperature_out_of_range voltage_out_of_range : TelemetryRejectionReason
  invalid_operating_mode reserved_fault_bits_set : TelemetryRejectionReason

-- `TelemetryValidationError` with its reason, a plain `ValueError`, and `struct.error`.
pub data CodecError : Type 0 where
  rejected : TelemetryRejectionReason → CodecError
  value_error struct_error : CodecError

pub record TelemetryFrame : Type 0 where
  pub payload_id : ℤ
  pub boot_id : ℤ
  pub sequence_number : ℤ
  pub timestamp_us : ℤ
  pub temperature_centi_c : ℤ
  pub voltage_mv : ℤ
  pub operating_mode : ℤ
  pub fault_flags : ℤ
  pub protocol_version : ℤ

-- `zlib.crc32(data) & UINT32_MAX`
unfoldable pub crc32_iso_hdlc : Bytes → ℕ
crc32_iso_hdlc bs = crc32 bs % 2 ^ 32

-- `_timestamp_us`: a value without a time zone is refused.
unfoldable pub timestamp_us_of : Datetime → Result CodecError ℤ
timestamp_us_of value = elim value.utcoffset [
  | none ↦ err value_error
  | some offset ↦ ok (since_epoch_us value offset)
]

-- not lo <= z <= hi
abbrev pub outside : ℤ → ℤ → ℤ → Bool
outside lo hi z = not (leb_ℤ lo z && leb_ℤ z hi)

-- The checks on version, payload, boot, sequence and the two bounds that need no receipt time.
validate_identity : TelemetryFrame → Result CodecError (Unit {0})
validate_identity f = do
  raise_if (not (eqb_ℤ f.protocol_version (pos protocol_version_1)))
      (rejected unsupported_protocol_version)
  raise_if (not (eqb_ℤ f.payload_id (pos supported_payload_id))) (rejected unsupported_payload_id)
  raise_if (outside (pos 1) (pos uint32_max) f.boot_id) (rejected invalid_boot_id)
  raise_if (outside (pos 0) (pos uint32_max) f.sequence_number) value_error
  raise_if (outside (pos 0) (pos (2 ^ 64 - 1)) f.timestamp_us) value_error
  raise_if (ltb_ℤ f.timestamp_us (pos project_epoch_us)) (rejected timestamp_before_project_epoch)

-- The check against the receipt time, where there is one.
validate_receipt_time : TelemetryFrame → Option Datetime → Result CodecError (Unit {0})
validate_receipt_time f none = ok tt
validate_receipt_time f (some received) = do
  received_us ← timestamp_us_of received
  raise_if (ltb_ℤ (received_us +ℤ pos max_future_skew_us) f.timestamp_us)
      (rejected timestamp_too_far_in_future)

abbrev pub is_defined_mode : ℤ → Bool
is_defined_mode z = leb_ℤ (pos 0) z && leb_ℤ z (pos 3)

mode_or_reject : Option OperatingMode → Result CodecError (Unit {0})
mode_or_reject none = err (rejected invalid_operating_mode)
mode_or_reject (some m) = ok tt

-- The checks on the measured values, the mode and the fault bits.
validate_values : TelemetryFrame → Result CodecError (Unit {0})
unfolding operating_mode_of mode_or_reject
validate_values f = do
  raise_if (outside (negsuc 9999) (pos 15000) f.temperature_centi_c)
      (rejected temperature_out_of_range)
  raise_if (outside (pos 0) (pos 50000) f.voltage_mv) (rejected voltage_out_of_range)
  mode_or_reject (operating_mode_of f.operating_mode)
  raise_if (outside (pos 0) (pos 0xFF) f.fault_flags) value_error
  raise_if (not (bit_and (pos_part f.fault_flags) reserved_fault_mask == 0))
      (rejected reserved_fault_bits_set)

unfoldable pub validate_fields : TelemetryFrame → Option Datetime → Result CodecError (Unit {0})
unfolding validate_identity validate_receipt_time validate_values
validate_fields f received = do
  validate_identity f
  validate_receipt_time f received
  validate_values f

abbrev pub field_values : TelemetryFrame → List ℤ
field_values f =
    f.protocol_version ∷ f.payload_id ∷ f.boot_id ∷ f.sequence_number ∷ f.timestamp_us
    ∷ f.temperature_centi_c ∷ f.voltage_mv ∷ f.operating_mode ∷ f.fault_flags ∷ []

unfoldable pub encode_telemetry : TelemetryFrame → Option Datetime → Result CodecError Bytes
encode_telemetry f received = do
  validate_fields f received
  body ← or_raise (pack telemetry_v1_body (field_values f)) struct_error
  crc ← or_raise (pack crc32_big_endian (pos (crc32_iso_hdlc body) ∷ [])) struct_error
  ok (body ++ crc)

-- The nine values of the body, in the order of the format; the mode is still a raw integer.
abbrev frame_of_values : List ℤ → Option TelemetryFrame
frame_of_values (v ∷ p ∷ b ∷ s ∷ t ∷ c ∷ m ∷ o ∷ g ∷ []) = some (record {
  payload_id = p;
  boot_id = b;
  sequence_number = s;
  timestamp_us = t;
  temperature_centi_c = c;
  voltage_mv = m;
  operating_mode = o;
  fault_flags = g;
  protocol_version = v;
})
frame_of_values _ = none

abbrev single_value : List ℤ → Option ℤ
single_value (z ∷ []) = some z
single_value _ = none

-- `decode_telemetry` from the fields on.
unfoldable pub decode_body : Bytes → Datetime → Result CodecError TelemetryFrame
decode_body body received = do
  values ← or_raise (unpack telemetry_v1_body body) struct_error
  f ← or_raise (frame_of_values values) struct_error
  validate_fields f (some received)
  mode ← or_raise (operating_mode_of f.operating_mode) value_error
  ok (record f { operating_mode = mode_value mode })

-- `decode_telemetry` after the tests on the first byte and on the length.
unfoldable pub decode_sized : Bytes → Datetime → Result CodecError TelemetryFrame
decode_sized raw received = do
  let body = take telemetry_v1_body_size raw
  values ← or_raise (unpack crc32_big_endian (drop telemetry_v1_body_size raw)) struct_error
  expected_crc ← or_raise (single_value values) struct_error
  raise_if (not (eqb_ℤ expected_crc (pos (crc32_iso_hdlc body)))) (rejected crc_mismatch)
  decode_body body received

unfoldable pub decode_telemetry : Bytes → Datetime → Result CodecError TelemetryFrame
decode_telemetry [] received = err (rejected empty_body)
decode_telemetry (version ∷ rest) received =
    if not (version == protocol_version_1)
    then err (rejected unsupported_protocol_version)
    else if not (length (version ∷ rest) == telemetry_v1_frame_size)
    then err (rejected invalid_frame_length)
    else decode_sized (version ∷ rest) received

-- "TLM-P"
abbrev packet_prefix : Bytes
packet_prefix = b'T' ∷ b'L' ∷ b'M' ∷ b'-' ∷ b'P' ∷ []

-- f"TLM-P{payload_id:02d}-B{boot_id:08X}-S{sequence_number:08X}"
unfoldable pub packet_id_text : ℤ → ℤ → ℤ → Bytes
packet_id_text payload_id boot_id sequence_number =
    packet_prefix
    ++ (format_int 9 2 payload_id
        ++ (b'-'
            ∷ b'B'
            ∷ (format_int 15 8 boot_id ++ (b'-' ∷ b'S' ∷ format_int 15 8 sequence_number))))

unfoldable pub format_packet_id : ℤ → ℤ → ℤ → Result CodecError Bytes
format_packet_id payload_id boot_id sequence_number = do
  raise_if (outside (pos 0) (pos 99) payload_id) value_error
  raise_if (outside (pos 0) (pos uint32_max) boot_id) value_error
  raise_if (outside (pos 0) (pos uint32_max) sequence_number) value_error
  ok (packet_id_text payload_id boot_id sequence_number)
