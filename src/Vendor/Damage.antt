-- ===== src/Vendor/Damage.antt =====
-- services/vendor_simulator.py: the ground refuses a frame that `_apply_wire_failure` has damaged.
use cislunar_ground_platform.Base.{
  none, Bool-cases, ℕ, ◌<◌, ◌≡◌, inl, inr, Bool-cases, refl, sym, ap, ◌∙◌, true, false, not, ◌==◌,
  ltb, ◌&&◌, some, Option, [], ◌∷◌, ◌++◌, Bytes, bit_xor, length, take, take-append, drop-append,
  length-append, every_below, every_below-true, ok, err, All, arith,
}
use cislunar_ground_platform.Base.Int.{pos}
use cislunar_ground_platform.Base.Digits.{be_value}
use cislunar_ground_platform.Std.Datetime.{Datetime}
use cislunar_ground_platform.Std.Struct.{pack, unpack}
use cislunar_ground_platform.Std.Struct.RoundTrip.{IsByte, length-pack, pack-All, pack-unpack}
use cislunar_ground_platform.Telemetry.Codec.{
  field_values, telemetry_v1_body, TelemetryFrame, rejected, crc_mismatch,
  unsupported_protocol_version, crc32_big_endian, crc32_iso_hdlc, decode_sized, decode_telemetry,
  encode_telemetry,
}
use cislunar_ground_platform.Telemetry.Codec.RoundTrip.{
  encode_parts, version_byte, decode_telemetry_sized,
}
use cislunar_ground_platform.Telemetry.Codec.Encoding.{pack_crc-total}
use cislunar_ground_platform.Vendor.Readings.{FailureMode}
use cislunar_ground_platform.Vendor.Payload.{flip_last, as_version_2, apply_wire_failure}

flip_table : every_below 256 (λ d. not (bit_xor d 1 == d) && ltb (bit_xor d 1) 256) ≡ true
unfolding every_below
flip_table = refl

flipped_bit : (d : ℕ) → d < 256 → (not (bit_xor d 1 == d) && ltb (bit_xor d 1) 256) ≡ true
flipped_bit d h =
    every_below-true 256 (λ d. not (bit_xor d 1 == d) && ltb (bit_xor d 1) 256) d flip_table h

flip_last-append :
    (xs : Bytes) (c : ℕ) (cs ds : Bytes)
    → flip_last (c ∷ cs) ≡ some ds
    → flip_last (xs ++ c ∷ cs) ≡ some (xs ++ ds)
unfolding flip_last
flip_last-append [] c cs ds h = h
flip_last-append (x ∷ []) c cs ds h = rw h refl
flip_last-append (x ∷ y ∷ xs) c cs ds h = rw (flip_last-append (y ∷ xs) c cs ds h) refl

fourth : Option Bytes → ℕ
fourth (some (a ∷ b ∷ c ∷ d ∷ [])) = d
fourth _ = 0

unpack_four :
    (a b c d : ℕ)
    → unpack crc32_big_endian (a ∷ b ∷ c ∷ d ∷ [])
      ≡ some (pos (be_value 255 (a ∷ b ∷ c ∷ d ∷ [])) ∷ [])
unfolding unpack
unpack_four a b c d = refl

-- Two texts of one checksum are equal.
same_checksum :
    (crc w a b c d e : ℕ)
    → pack crc32_big_endian (pos crc ∷ []) ≡ some (a ∷ b ∷ c ∷ d ∷ [])
    → All IsByte (a ∷ b ∷ c ∷ e ∷ [])
    → unpack crc32_big_endian (a ∷ b ∷ c ∷ e ∷ []) ≡ some (pos w ∷ [])
    → w ≡ crc
    → e ≡ d
unfolding fourth
same_checksum crc w a b c d e h bytes read same = ap fourth (
    sym (pack-unpack crc32_big_endian (a ∷ b ∷ c ∷ e ∷ []) (pos w ∷ []) bytes read)
    ∙ ap (λ n. pack crc32_big_endian (pos n ∷ [])) same
    ∙ h)

-- A checksum with its last bit flipped is another checksum.
flipped_checksum :
    (crc : ℕ) (packed : Bytes)
    → pack crc32_big_endian (pos crc ∷ []) ≡ some packed
    → (flipped : Bytes) × ((body : Bytes) → flip_last (body ++ packed) ≡ some (body ++ flipped))
      × (length flipped ≡ 4)
      × (w : ℕ) × (unpack crc32_big_endian flipped ≡ some (pos w ∷ []))
      × ((w == crc) ≡ false)
flipped_checksum crc (a ∷ b ∷ c ∷ d ∷ []) h =
    let bytes = pack-All crc32_big_endian _ (a ∷ b ∷ c ∷ d ∷ []) h in
    let bit = flipped_bit d (omega (arith, bytes.1.1.1.0)) in
    let other = bit_xor d 1 in
    let bytes' : All IsByte (a ∷ b ∷ c ∷ other ∷ []) =
      (bytes.0, (bytes.1.0, (bytes.1.1.0, (ground arith, tt)))) in
    let w = be_value 255 (a ∷ b ∷ c ∷ other ∷ []) in
    let differs : (w == crc) ≡ false = elim (Bool-cases (w == crc)) [
      | inl e ↦
          let same =
            same_checksum crc w a b c d other h bytes' (unpack_four a b c other) (ground arith) in
          absurd (ground arith)
      | inr e ↦ e
    ] in
    (
      a ∷ b ∷ c ∷ other ∷ [],
      λ body. flip_last-append body a _ _ (unfold flip_last in refl),
      refl,
      w,
      unpack_four a b c other,
      differs,
    )
flipped_checksum crc [] h = absurd (omega (arith, length-pack crc32_big_endian _ [] h))
flipped_checksum crc (a ∷ []) h = absurd (omega (arith, length-pack crc32_big_endian _ (a ∷ []) h))
flipped_checksum crc (a ∷ b ∷ []) h =
    absurd (omega (arith, length-pack crc32_big_endian _ (a ∷ b ∷ []) h))
flipped_checksum crc (a ∷ b ∷ c ∷ []) h =
    absurd (omega (arith, length-pack crc32_big_endian _ (a ∷ b ∷ c ∷ []) h))
flipped_checksum crc (a ∷ b ∷ c ∷ d ∷ e ∷ cs) h =
    absurd (omega (arith, length-pack crc32_big_endian _ (a ∷ b ∷ c ∷ d ∷ e ∷ cs) h))

decode_flipped :
    (body flipped : Bytes) (w : ℕ) (r : Datetime)
    → length body ≡ 24
    → unpack crc32_big_endian flipped ≡ some (pos w ∷ [])
    → (w == crc32_iso_hdlc body) ≡ false
    → decode_sized (body ++ flipped) r ≡ err (rejected crc_mismatch)
unfolding decode_sized
decode_flipped body flipped w r n read differs =
    rw (take-append 24 body flipped n, drop-append 24 body flipped n, read) (ground arith)

-- A frame whose checksum was damaged is refused for it.
pub corrupt_crc-Rejected :
    (f : TelemetryFrame) (raw : Bytes) (r : Datetime)
    → encode_telemetry f none ≡ ok raw
    → (damaged : Bytes) × (apply_wire_failure raw FailureMode.corrupt_crc ≡ some damaged)
      × (decode_telemetry damaged r ≡ err (rejected crc_mismatch))
unfolding apply_wire_failure
corrupt_crc-Rejected f raw r h =
    let (body, crc, valid, packed, sealed, e) = encode_parts f none raw h in
    let (rest, first) = version_byte f body valid.0.version packed in
    let (flipped, flips, four, w, read, differs) =
      flipped_checksum (crc32_iso_hdlc body) crc sealed in
    let n = length-pack telemetry_v1_body (field_values f) body packed in
    (
      body ++ flipped,
      ap flip_last (sym e) ∙ flips body,
      decode_telemetry_sized (body ++ flipped) (rest ++ flipped) r (ap (λ b. b ++ flipped) first)
            (omega (arith, length-append body flipped))
          ∙ decode_flipped body flipped w r n read differs,
    )

as_version_2-Rejected :
    (rest : Bytes) (r : Datetime)
    → (damaged : Bytes) × (as_version_2 (1 ∷ rest) ≡ some damaged)
      × (decode_telemetry damaged r ≡ err (rejected unsupported_protocol_version))
unfolding as_version_2 decode_telemetry
as_version_2-Rejected rest r =
    let (checksum, packed) = pack_crc-total (take 24 (2 ∷ rest)) in
    (take 24 (2 ∷ rest) ++ checksum, rw (as_version_2, packed) refl, refl)

-- A frame that says version 2 is refused for it, although its checksum is right.
pub unsupported_version-Rejected :
    (f : TelemetryFrame) (raw : Bytes) (r : Datetime)
    → encode_telemetry f none ≡ ok raw
    → (damaged : Bytes) × (apply_wire_failure raw FailureMode.unsupported_version ≡ some damaged)
      × (decode_telemetry damaged r ≡ err (rejected unsupported_protocol_version))
unfolding apply_wire_failure
unsupported_version-Rejected f raw r h =
    let (body, crc, valid, packed, sealed, e) = encode_parts f none raw h in
    let (rest, first) = version_byte f body valid.0.version packed in
    let (damaged, made, refused) = as_version_2-Rejected (rest ++ crc) r in
    (damaged, ap as_version_2 (sym e ∙ ap (λ b. b ++ crc) first) ∙ made, refused)
