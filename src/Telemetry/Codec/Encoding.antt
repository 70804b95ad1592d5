-- ===== src/Telemetry/Codec/Encoding.antt =====
-- codec.py: when `encode_telemetry` returns, and what `decode_telemetry` accepts.
use cislunar_ground_platform.Base.{
  ◌^◌, ◌<◌, ◌≡◌, Option, some, [], ◌∷◌, ◌++◌, Bytes, ok, arith, length, ◌↔◌, All,
}
use cislunar_ground_platform.Base.Int.{pos}
use cislunar_ground_platform.Std.Struct.{unsigned, signed, pack}
use cislunar_ground_platform.Std.Struct.RoundTrip.{
  to_word_unsigned, to_word_signed, pack_step, pack_nil, IsByte,
}
use cislunar_ground_platform.Std.Datetime.{Datetime}
use cislunar_ground_platform.Telemetry.Codec.{
  TelemetryFrame, telemetry_v1_body, crc32_big_endian, crc32_iso_hdlc, field_values,
  encode_telemetry, decode_telemetry,
}
use cislunar_ground_platform.Telemetry.Codec.Validation.{IsValid, validate_fields_complete}
use cislunar_ground_platform.Telemetry.Codec.RoundTrip.{
  encode_parts, length-encode, decode-encode, encode-decode,
}

pack_body-total :
    (f : TelemetryFrame) (o : Option Datetime)
    → IsValid f o
    → (body : Bytes) × (pack telemetry_v1_body (field_values f) ≡ some body)
pack_body-total f o (i, t, v) =
    let (temperature, signed_word) =
      to_word_signed 2 f.temperature_centi_c (omega arith) (omega arith) in
    (
      _,
      pack_step (unsigned 1) _ _ _
          (to_word_unsigned 1 f.protocol_version (ground arith) (ground arith))
          (pack_step (unsigned 1) _ _ _
            (to_word_unsigned 1 f.payload_id (ground arith) (ground arith))
            (pack_step (unsigned 4) _ _ _ (to_word_unsigned 4 f.boot_id (omega arith) (omega arith))
              (pack_step (unsigned 4) _ _ _
                (to_word_unsigned 4 f.sequence_number (omega arith) (omega arith))
                (pack_step (unsigned 8) _ _ _
                  (to_word_unsigned 8 f.timestamp_us (omega arith) (omega arith))
                  (pack_step (signed 2) _ _ _ signed_word (
                    pack_step (unsigned 2) _ _ _
                      (to_word_unsigned 2 f.voltage_mv (omega arith) (omega arith))
                      (pack_step (unsigned 1) _ _ _
                        (to_word_unsigned 1 f.operating_mode (omega arith) (omega arith))
                        (pack_step (unsigned 1) _ _ _
                          (to_word_unsigned 1 f.fault_flags (omega arith) (omega arith))
                          pack_nil)))))))),
    )

crc32_iso_hdlc-lt : (body : Bytes) → crc32_iso_hdlc body < 2 ^ 32
unfolding crc32_iso_hdlc
crc32_iso_hdlc-lt body = omega arith

pub pack_crc-total :
    (body : Bytes)
    → (crc : Bytes) × (pack crc32_big_endian (pos (crc32_iso_hdlc body) ∷ []) ≡ some crc)
pack_crc-total body = (
  _,
  pack_step (unsigned 4) _ _ _
      (to_word_unsigned 4 (pos (crc32_iso_hdlc body)) (omega arith) (crc32_iso_hdlc-lt body))
      pack_nil,
)

-- A frame is encoded to bytes exactly when its fields pass the checks of the interface; then
-- there are 28 of them.
pub encode_telemetry_total :
    (f : TelemetryFrame) (o : Option Datetime)
    → IsValid f o ↔ ((raw : Bytes) × (encode_telemetry f o ≡ ok raw) × (length raw ≡ 28))
unfolding encode_telemetry
encode_telemetry_total f o = (forth, back)
  where
    forth : IsValid f o → (raw : Bytes) × (encode_telemetry f o ≡ ok raw) × (length raw ≡ 28)
    forth valid =
        let (body, packed) = pack_body-total f o valid in
        let (crc, sealed) = pack_crc-total body in
        let e : encode_telemetry f o ≡ ok (body ++ crc) =
          rw (validate_fields_complete f o valid, packed, sealed) in
        (body ++ crc, e, length-encode f o (body ++ crc) e)

    back : (raw : Bytes) × (encode_telemetry f o ≡ ok raw) × (length raw ≡ 28) → IsValid f o
    back (raw, e, n) = (encode_parts f o raw e).2

-- The receiver accepts exactly the byte strings that the payload's encoder makes at that time, and
-- reads from them the frame that was encoded.
pub decode_telemetry_iff :
    (raw : Bytes) (f : TelemetryFrame) (r : Datetime)
    → All IsByte raw
    → (decode_telemetry raw r ≡ ok f) ↔ (encode_telemetry f (some r) ≡ ok raw)
decode_telemetry_iff raw f r bytes = (
  encode-decode raw r f bytes,
  λ h.
      let valid = (encode_telemetry_total f (some r)).1 (raw, h, length-encode f (some r) raw h) in
      decode-encode f raw (some r) r h valid.1,
)
