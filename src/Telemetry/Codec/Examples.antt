-- ===== src/Telemetry/Codec/Examples.antt =====
-- One frame of codec.py on the wire, and each property at it.
use cislunar_ground_platform.Base.{ℕ, ◌≡◌, refl, none, some, [], ◌∷◌, Bytes, ok, length, arith, ◌↔◌}
use cislunar_ground_platform.Base.Int.{pos, ◌+ℤ◌, ◌-ℤ◌}
use cislunar_ground_platform.Std.Datetime.{Datetime, utc}
use cislunar_ground_platform.Std.Zlib.{crc32}
use cislunar_ground_platform.Std.Struct.{pack}
use cislunar_ground_platform.Telemetry.Codec.{
  TelemetryFrame, validate_fields, encode_telemetry, decode_telemetry, crc32_iso_hdlc,
  timestamp_us_of,
}
use cislunar_ground_platform.Telemetry.Codec.Validation.{IsValid, validate_fields_iff}
use cislunar_ground_platform.Telemetry.Codec.Encoding.{encode_telemetry_total, decode_telemetry_iff}
use cislunar_ground_platform.Telemetry.Codec.PacketId.{packet_id_text-injective}

abbrev sample : TelemetryFrame
sample = record {
  payload_id = pos 1;
  boot_id = pos 7;
  sequence_number = pos 3;
  timestamp_us = pos 1767225660000000;
  temperature_centi_c = pos 2150;
  voltage_mv = pos 28000;
  operating_mode = pos 2;
  fault_flags = pos 0;
  protocol_version = pos 1;
}

-- Received two seconds after the sample.
abbrev receipt_time : Datetime
receipt_time = utc 1767225662000000

abbrev sample_raw : Bytes
sample_raw =
    1 ∷ 1 ∷ 0 ∷ 0 ∷ 0 ∷ 7 ∷ 0 ∷ 0 ∷ 0 ∷ 3 ∷ 0 ∷ 6 ∷ 71 ∷ 72 ∷ 73 ∷ 179 ∷ 199 ∷ 0 ∷ 8 ∷ 102 ∷ 109
    ∷ 96 ∷ 2 ∷ 0 ∷ 64 ∷ 232 ∷ 197 ∷ 9 ∷ []

sample_checked : validate_fields sample (some receipt_time) ≡ ok tt
unfolding validate_fields timestamp_us_of ◌+ℤ◌ ◌-ℤ◌
sample_checked = refl

sample-IsValid : IsValid sample (some receipt_time)
sample-IsValid = (validate_fields_iff sample (some receipt_time)).0 sample_checked

sample_encoded : encode_telemetry sample none ≡ ok sample_raw
unfolding encode_telemetry pack crc32_iso_hdlc validate_fields crc32
sample_encoded = refl

validate_fields_iff_example :
    (validate_fields sample (some receipt_time) ≡ ok tt) ↔ IsValid sample (some receipt_time)
validate_fields_iff_example = validate_fields_iff sample (some receipt_time)

encode_telemetry_total_example :
    IsValid sample (some receipt_time)
    ↔ ((raw : Bytes) × (encode_telemetry sample (some receipt_time) ≡ ok raw) × (length raw ≡ 28))
encode_telemetry_total_example = encode_telemetry_total sample (some receipt_time)

decode_telemetry_iff_example :
    (decode_telemetry sample_raw receipt_time ≡ ok sample)
    ↔ (encode_telemetry sample (some receipt_time) ≡ ok sample_raw)
decode_telemetry_iff_example = decode_telemetry_iff sample_raw sample receipt_time (ground arith)

packet_id_text-injective_example : ◌≡◌ {A = ℕ} 1 1 × ◌≡◌ {A = ℕ} 7 7 × ◌≡◌ {A = ℕ} 3 3
packet_id_text-injective_example =
    packet_id_text-injective 1 7 3 1 7 3 (omega arith) (omega arith) (omega arith) (omega arith)
      (omega arith) (omega arith) refl
