-- ===== src/Telemetry/Codec/RoundTrip.antt =====
-- codec.py: `encode_telemetry` followed by `decode_telemetry`, and the other way round.
use cislunar_ground_platform.Base.{
  subst, ℕ, ◌≡◌, refl, sym, ap, ◌∙◌, not, Option, none, some, List, [], ◌∷◌, ◌++◌, Bytes, length,
  take, drop, length-append, take-append, drop-append, append-take-drop, All, All-take, All-drop,
  ok, >>=-eq-ok, or_raise, or_raise-eq-ok, ok-injective, raise_if, arith, inl, inr,
}
use cislunar_ground_platform.Base.Int.{ℤ, pos, eqb_ℤ}
use cislunar_ground_platform.Std.Struct.{unsigned, to_word, pack, unpack}
use cislunar_ground_platform.Base.Digits.{be_digits}
use cislunar_ground_platform.Std.Struct.RoundTrip.{
  IsByte, pack_cons, length-pack, unpack-pack, pack-unpack,
}
use cislunar_ground_platform.Std.Datetime.{Datetime}
use cislunar_ground_platform.Telemetry.Codec.{
  TelemetryFrame, rejected, struct_error, value_error, crc_mismatch, telemetry_v1_body,
  crc32_big_endian, crc32_iso_hdlc, validate_fields, field_values, encode_telemetry,
  decode_telemetry, decode_sized, decode_body, frame_of_values, single_value, operating_mode_of,
}
use cislunar_ground_platform.Telemetry.Codec.Validation.{
  IsValid, IsTimely, validate_fields_sound, validate_fields_complete, mode_of-cases, mode_of-some,
}

-- A frame that was encoded is the packed body before its packed checksum.
pub encode_parts :
    (f : TelemetryFrame) (o : Option Datetime) (raw : Bytes)
    → encode_telemetry f o ≡ ok raw
    → (body : Bytes) × (crc : Bytes) × IsValid f o
      × (pack telemetry_v1_body (field_values f) ≡ some body)
      × (pack crc32_big_endian (pos (crc32_iso_hdlc body) ∷ []) ≡ some crc)
      × (body ++ crc ≡ raw)
unfolding encode_telemetry
encode_parts f o raw h =
    let (a, checked, h₁) = >>=-eq-ok (validate_fields f o) _ h in
    let (body, packed, h₂) = >>=-eq-ok _ _ h₁ in
    let (crc, sealed, h₃) = >>=-eq-ok _ _ h₂ in
    (
      body,
      crc,
      validate_fields_sound f o checked,
      or_raise-eq-ok _ _ packed,
      or_raise-eq-ok _ _ sealed,
      cc h₃,
    )

one_byte : (w : ℕ) → to_word (unsigned 1) (pos 1) ≡ some w → be_digits 255 1 w ≡ 1 ∷ []
unfolding to_word
one_byte w h = let e : w ≡ 1 = ground arith in rw e (unfold be_digits in refl)

-- The first byte of the body is the version.
pub version_byte :
    (f : TelemetryFrame) (body : Bytes)
    → f.protocol_version ≡ pos 1
    → pack telemetry_v1_body (field_values f) ≡ some body
    → (rest : Bytes) × (body ≡ 1 ∷ rest)
version_byte f body v h =
    let (w, rest, word, tail, e) = pack_cons (unsigned 1) _ f.protocol_version _ body h in
    (
      rest,
      sym e
          ∙ ap (λ ds. ds ++ rest)
              (one_byte w (subst (λ z. to_word (unsigned 1) z ≡ some w) v word)),
    )

decode_body-pack :
    (f : TelemetryFrame) (body : Bytes) (r : Datetime)
    → IsValid f (some r)
    → pack telemetry_v1_body (field_values f) ≡ some body
    → decode_body body r ≡ ok f
unfolding decode_body
decode_body-pack f body r valid h =
    rw
      (
        unpack-pack telemetry_v1_body (field_values f) body h,
        validate_fields_complete f (some r) valid,
      )
      (elim (mode_of-cases f.operating_mode) [
        | inl (m, e, v, _, _) ↦ rw e (ap (λ z. ok (record f { operating_mode = z })) v)
        | inr (e, undefined) ↦ absurd (undefined (valid.2.mode_low, valid.2.mode_high))
      ])

decode_sized-encode :
    (f : TelemetryFrame) (body crc : Bytes) (r : Datetime)
    → IsValid f (some r)
    → pack telemetry_v1_body (field_values f) ≡ some body
    → pack crc32_big_endian (pos (crc32_iso_hdlc body) ∷ []) ≡ some crc
    → decode_sized (body ++ crc) r ≡ ok f
unfolding decode_sized
decode_sized-encode f body crc r valid h c =
    let n = length-pack telemetry_v1_body (field_values f) body h in
    rw
      (
        take-append 24 body crc n,
        drop-append 24 body crc n,
        unpack-pack crc32_big_endian (pos (crc32_iso_hdlc body) ∷ []) crc c,
      )
      (ground (arith, decode_body-pack f body r valid h))

pub length-encode :
    (f : TelemetryFrame) (o : Option Datetime) (raw : Bytes)
    → encode_telemetry f o ≡ ok raw
    → length raw ≡ 28
length-encode f o raw h =
    let (body, crc, valid, packed, sealed, e) = encode_parts f o raw h in
    rw (← e) (
      omega (
        arith,
        length-append body crc,
        length-pack telemetry_v1_body (field_values f) body packed,
        length-pack crc32_big_endian _ crc sealed,
      ))

-- A frame of the right length that begins with the version gets past the first two tests.
pub decode_telemetry_sized :
    (raw tail : Bytes) (r : Datetime)
    → raw ≡ 1 ∷ tail
    → length raw ≡ 28
    → decode_telemetry raw r ≡ decode_sized raw r
unfolding decode_telemetry
decode_telemetry_sized raw tail r e n =
    subst (λ w. length w ≡ 28 → decode_telemetry w r ≡ decode_sized w r) (sym e)
      (λ (m : length (1 ∷ tail) ≡ 28). ground arith) n

-- A frame that the payload encodes, and that is timely when the ground receives it, is decoded to
-- the same frame.
pub decode-encode :
    (f : TelemetryFrame) (raw : Bytes) (o : Option Datetime) (r : Datetime)
    → encode_telemetry f o ≡ ok raw
    → IsTimely f (some r)
    → decode_telemetry raw r ≡ ok f
decode-encode f raw o r h timely =
    let (body, crc, valid, packed, sealed, e) = encode_parts f o raw h in
    let (rest, first) = version_byte f body valid.0.version packed in
    decode_telemetry_sized raw (rest ++ crc) r (sym e ∙ ap (λ w. w ++ crc) first)
      (length-encode f o raw h)
    ∙ ap (λ w. decode_sized w r) (sym e)
    ∙ decode_sized-encode f body crc r (valid.0, timely, valid.2) packed sealed

-- Only the last branch of `decode_telemetry` returns a frame.
decode_sized_of :
    (raw : Bytes) (r : Datetime) (f : TelemetryFrame)
    → decode_telemetry raw r ≡ ok f
    → decode_sized raw r ≡ ok f
unfolding decode_telemetry
decode_sized_of [] r f h = cc
decode_sized_of (b ∷ bs) r f h = ground arith

single_value-some : (vs : List ℤ) (z : ℤ) → single_value vs ≡ some z → vs ≡ z ∷ []
single_value-some [] z h = cc
single_value-some (v ∷ []) z h = cc
single_value-some (v ∷ w ∷ vs) z h = cc

decode_sized_parts :
    (raw : Bytes) (r : Datetime) (f : TelemetryFrame)
    → decode_sized raw r ≡ ok f
    → (unpack crc32_big_endian (drop 24 raw) ≡ some (pos (crc32_iso_hdlc (take 24 raw)) ∷ []))
      × (decode_body (take 24 raw) r ≡ ok f)
unfolding decode_sized
decode_sized_parts raw r f h =
    let (values, read, h₁) =
      >>=-eq-ok (or_raise (unpack crc32_big_endian (drop 24 raw)) struct_error) _ h in
    let (expected, one, h₂) = >>=-eq-ok (or_raise (single_value values) struct_error) _ h₁ in
    let crc = pos (crc32_iso_hdlc (take 24 raw)) in
    let (u, same, h₃) =
      >>=-eq-ok (raise_if (not (eqb_ℤ expected crc)) (rejected crc_mismatch)) _ h₂ in
    let equal : expected ≡ crc = ground arith in
    (
      or_raise-eq-ok _ _ read
          ∙ ap some
              (single_value-some values expected (or_raise-eq-ok _ _ one) ∙ ap (λ z. z ∷ []) equal),
      h₃,
    )

frame_of_values-some :
    (vs : List ℤ) (f : TelemetryFrame) → frame_of_values vs ≡ some f → vs ≡ field_values f
frame_of_values-some [] f h = cc
frame_of_values-some (a ∷ []) f h = cc
frame_of_values-some (a ∷ b ∷ []) f h = cc
frame_of_values-some (a ∷ b ∷ c ∷ []) f h = cc
frame_of_values-some (a ∷ b ∷ c ∷ d ∷ []) f h = cc
frame_of_values-some (a ∷ b ∷ c ∷ d ∷ e ∷ []) f h = cc
frame_of_values-some (a ∷ b ∷ c ∷ d ∷ e ∷ g ∷ []) f h = cc
frame_of_values-some (a ∷ b ∷ c ∷ d ∷ e ∷ g ∷ i ∷ []) f h = cc
frame_of_values-some (a ∷ b ∷ c ∷ d ∷ e ∷ g ∷ i ∷ j ∷ []) f h = cc
frame_of_values-some (a ∷ b ∷ c ∷ d ∷ e ∷ g ∷ i ∷ j ∷ k ∷ []) f h =
    ap (λ o. elim o [ none ↦ [] | some x ↦ field_values x ]) h
frame_of_values-some (a ∷ b ∷ c ∷ d ∷ e ∷ g ∷ i ∷ j ∷ k ∷ l ∷ vs) f h = cc

decode_body_parts :
    (body : Bytes) (r : Datetime) (f : TelemetryFrame)
    → decode_body body r ≡ ok f
    → IsValid f (some r) × (unpack telemetry_v1_body body ≡ some (field_values f))
unfolding decode_body
decode_body_parts body r f h =
    let (values, read, h₁) =
      >>=-eq-ok (or_raise (unpack telemetry_v1_body body) struct_error) _ h in
    let (g, nine, h₂) = >>=-eq-ok (or_raise (frame_of_values values) struct_error) _ h₁ in
    let (u, checked, h₃) = >>=-eq-ok (validate_fields g (some r)) _ h₂ in
    let (mode, defined, h₄) =
      >>=-eq-ok (or_raise (operating_mode_of g.operating_mode) value_error) _ h₃ in
    let named = mode_of-some g.operating_mode mode (or_raise-eq-ok _ _ defined) in
    let same : g ≡ f = ap (λ z. record g { operating_mode = z }) (sym named) ∙ ok-injective h₄ in
    (
      subst (λ k. IsValid k (some r)) same (validate_fields_sound g (some r) checked),
      or_raise-eq-ok _ _ read
          ∙ ap some
              (frame_of_values-some values g (or_raise-eq-ok _ _ nine) ∙ ap field_values same),
    )

-- Bytes that the receiver decodes are exactly what encoding the decoded frame gives: no two frames
-- on the wire decode to the same values.
pub encode-decode :
    (raw : Bytes) (r : Datetime) (f : TelemetryFrame)
    → All IsByte raw
    → decode_telemetry raw r ≡ ok f
    → encode_telemetry f (some r) ≡ ok raw
unfolding encode_telemetry
encode-decode raw r f bytes h =
    let sized = decode_sized_of raw r f h in
    let (sealed, decoded) = decode_sized_parts raw r f sized in
    let (valid, read) = decode_body_parts (take 24 raw) r f decoded in
    rw (
      validate_fields_complete f (some r) valid,
      pack-unpack telemetry_v1_body (take 24 raw) _ (All-take IsByte 24 raw bytes) read,
      pack-unpack crc32_big_endian (drop 24 raw) _ (All-drop IsByte 24 raw bytes) sealed,
      append-take-drop 24 raw,
    )

-- A decoded frame is valid at its receipt.
pub decode-IsValid :
    (raw : Bytes) (r : Datetime) (f : TelemetryFrame)
    → decode_telemetry raw r ≡ ok f
    → IsValid f (some r)
decode-IsValid raw r f h =
    let (sealed, decoded) = decode_sized_parts raw r f (decode_sized_of raw r f h) in
    let (valid, read) = decode_body_parts (take 24 raw) r f decoded in valid
