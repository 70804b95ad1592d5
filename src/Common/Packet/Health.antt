-- ===== src/Common/Packet/Health.antt =====
-- common/packet.py: a health sample is rounded to integers on the wire. What is read back has the same
-- integers, and is encoded to the same bytes.
use cislunar_ground_platform.Base.{
  ℕ, zero, suc, ◌*◌, ◌^◌, ◌≤◌, ◌<◌, true, some, Bytes, length, ltb, ◌==◌, ok, ◌>>=◌, ◌≡◌, refl, ap,
  ◌∙◌, or_raise, >>=-eq-ok, or_raise-eq-ok, arith,
}
use cislunar_ground_platform.Base.Int.{ℤ, pos, negsuc}
use cislunar_ground_platform.Std.Float.{
  magnitude, minus, like, half_even, nearest, bounded, over, denominator_for, multiply, divide,
}
use cislunar_ground_platform.Std.Float.Nearest.{quotient_times}
use cislunar_ground_platform.Std.Struct.{unsigned, signed, to_word, pack}
use cislunar_ground_platform.Std.Struct.RoundTrip.{pack_cons, length-pack, unpack-pack}
use cislunar_ground_platform.Common.Packet.{
  struct_error, apid_health, packet, HealthTelemetry, health_payload, health_values, health_of,
  payload_values, rounded, encode_space_packet, decode_space_packet, encode_health, decode_health,
}
use cislunar_ground_platform.Common.Packet.RoundTrip.{decode_space_packet-encode}

-- A sign that is put on positive magnitudes is kept.
signs :
    (z : ℤ) (q p : ℕ)
    → (1 ≤ magnitude z → (1 ≤ q) × (1 ≤ p))
    → (magnitude (like z q) ≡ q)
      × (magnitude (like (like z q) p) ≡ p)
      × (like (like (like z q) p) (magnitude z) ≡ z)
signs (pos n) q p h = (refl, refl, refl)
signs (negsuc n) q p h = negative q p (h (omega arith)).0 (h (omega arith)).1
  where
    negative :
        (k l : ℕ)
        → 1 ≤ k
        → 1 ≤ l
        → (magnitude (minus k) ≡ k)
          × (magnitude (like (minus k) l) ≡ l)
          × (like (like (minus k) l) (suc n) ≡ negsuc n)
    negative zero l le le' = absurd (omega (arith, le))
    negative (suc k) zero le le' = absurd (omega (arith, le'))
    negative (suc k) (suc l) le le' = (refl, refl, refl)

is_below : (a b : ℕ) → a < b → ltb a b ≡ true
is_below a b h = ground arith

rounded-bounded :
    (z : ℤ) (q p den : ℕ)
    → half_even p den ≡ magnitude z
    → p < 2 ^ 1024 * den
    → (1 ≤ magnitude z → (1 ≤ q) × (1 ≤ p))
    → rounded (bounded (like z q) p den) ≡ ok z
unfolding rounded bounded
rounded-bounded z q p den back small kept =
    let (size, size', sign) = signs z q p kept in
    rw (is_below p (2 ^ 1024 * den) small) (rw size' (rw back (ap ok sign)))

rounded-over :
    (z : ℤ) (d den : ℕ)
    → (let product = nearest (half_even (magnitude z * den) d * d) in
        (half_even product den ≡ magnitude z)
        × (product < 2 ^ 1024 * den)
        × (1 ≤ magnitude z → (1 ≤ half_even (magnitude z * den) d) × (1 ≤ product)))
    → rounded (multiply (over z d den) d) ≡ ok z
unfolding multiply over
rounded-over z d den (back, small, kept) =
    let q = half_even (magnitude z * den) d in
    let size = (signs z q (nearest (q * d)) kept).0 in
    ap (λ m. rounded (bounded (like z q) (nearest (m * d)) den)) size
    ∙ rounded-bounded z q (nearest (q * d)) den back small kept

-- An integer of 16 bits is what its quotient by d, times d, is rounded to.
rounded-divide :
    (z : ℤ) (d : ℕ)
    → 1 ≤ d
    → d ≤ 1000
    → magnitude z < 2 ^ 16
    → rounded (multiply (divide z d) d) ≡ ok z
unfolding divide
rounded-divide z d positive few small =
    rounded-over z d (denominator_for 1074 (magnitude z) d 1)
      (quotient_times (magnitude z) d positive few small)

-- What a field of two bytes takes has 16 bits.
unsigned_small : (z : ℤ) (w : ℕ) → to_word (unsigned 2) z ≡ some w → magnitude z < 2 ^ 16
unfolding to_word
unsigned_small (pos n) w h = ground arith
unsigned_small (negsuc n) w h = absurd cc

signed_small : (z : ℤ) (w : ℕ) → to_word (signed 2) z ≡ some w → magnitude z < 2 ^ 16
unfolding to_word
signed_small (pos n) w h = ground arith
signed_small (negsuc n) w h = ground arith

packed_small :
    (sample : HealthTelemetry) (v c : ℤ) (payload : Bytes)
    → pack health_payload (health_values sample v c) ≡ some payload
    → (magnitude v < 2 ^ 16) × (magnitude c < 2 ^ 16)
packed_small sample v c payload h =
    let (w₀, rest₀, word₀, tail₀, e₀) = pack_cons _ _ _ _ payload h in
    let (w₁, rest₁, word₁, tail₁, e₁) = pack_cons _ _ _ _ rest₀ tail₀ in
    let (w₂, rest₂, word₂, tail₂, e₂) = pack_cons _ _ _ _ rest₁ tail₁ in
    (unsigned_small v w₁ word₁, signed_small c w₂ word₂)

-- What stands on the wire for a sample: the voltage in thousandths and the temperature in hundredths,
-- each rounded.
abbrev pub IsOnWire : HealthTelemetry → ℤ → ℤ → Type 0
IsOnWire sample v c =
    (rounded (multiply sample.bus_voltage_v 1000) ≡ ok v)
    × (rounded (multiply sample.battery_temp_c 100) ≡ ok c)

-- The sample that is read back: the integers are the same, and the two floats are the doubles nearest
-- to the rounded numbers over 1000 and 100.
abbrev pub read_back : HealthTelemetry → ℤ → ℤ → HealthTelemetry
read_back sample v c = record sample {
  bus_voltage_v = divide v 1000;
  battery_temp_c = divide c 100;
}

encode-parts :
    (n : ℤ) (sample : HealthTelemetry) (raw : Bytes)
    → encode_health n sample ≡ ok raw
    → (v : ℤ) × (c : ℤ) × (payload : Bytes) × IsOnWire sample v c
      × (pack health_payload (health_values sample v c) ≡ some payload)
      × (encode_space_packet (packet apid_health n payload) ≡ ok raw)
unfolding encode_health
encode-parts n sample raw h =
    let (v, volts, h₁) = >>=-eq-ok (rounded (multiply sample.bus_voltage_v 1000)) _ h in
    let (c, degrees, h₂) = >>=-eq-ok (rounded (multiply sample.battery_temp_c 100)) _ h₁ in
    let (payload, packed, h₃) =
      >>=-eq-ok (or_raise (pack health_payload (health_values sample v c)) struct_error) _ h₂ in
    (v, c, payload, (volts, degrees), or_raise-eq-ok _ _ packed, h₃)

decode_health-encode :
    (n : ℤ) (sample : HealthTelemetry) (v c : ℤ) (payload raw : Bytes)
    → pack health_payload (health_values sample v c) ≡ some payload
    → encode_space_packet (packet apid_health n payload) ≡ ok raw
    → (decode_space_packet raw >>= decode_health) ≡ ok (read_back sample v c)
unfolding decode_health payload_values health_of
decode_health-encode n sample v c payload raw packed h =
    let fits : (length payload == 18) ≡ true =
      ground (arith, length-pack health_payload (health_values sample v c) payload packed) in
    rw
      (
        decode_space_packet-encode (packet apid_health n payload) raw h,
        fits,
        unpack-pack health_payload (health_values sample v c) payload packed,
      )
      refl

encode_health-again :
    (n : ℤ) (sample : HealthTelemetry) (v c : ℤ) (payload raw : Bytes)
    → IsOnWire (read_back sample v c) v c
    → pack health_payload (health_values sample v c) ≡ some payload
    → encode_space_packet (packet apid_health n payload) ≡ ok raw
    → encode_health n (read_back sample v c) ≡ ok raw
unfolding encode_health
encode_health-again n sample v c payload raw (volts, degrees) packed h =
    rw (volts, degrees) (rw packed h)

-- A sample that could be encoded is read back with its own integers and the quotients of its rounded
-- voltage and temperature, which round to the same numbers and encode to the same bytes.
abbrev pub ReadsBack : ℤ → HealthTelemetry → Bytes → Type 0
ReadsBack n sample raw =
    (v : ℤ) × (c : ℤ) × IsOnWire sample v c
    × ((decode_space_packet raw >>= decode_health) ≡ ok (read_back sample v c))
    × IsOnWire (read_back sample v c) v c
    × (encode_health n (read_back sample v c) ≡ ok raw)

pub encode_health-ReadsBack :
    (n : ℤ) (sample : HealthTelemetry) (raw : Bytes)
    → encode_health n sample ≡ ok raw
    → ReadsBack n sample raw
encode_health-ReadsBack n sample raw h =
    let (v, c, payload, wire, packed, sent) = encode-parts n sample raw h in
    let (small_v, small_c) = packed_small sample v c payload packed in
    let again : IsOnWire (read_back sample v c) v c = (
      rounded-divide v 1000 (omega arith) (omega arith) small_v,
      rounded-divide c 100 (omega arith) (omega arith) small_c,
    ) in
    (
      v,
      c,
      wire,
      decode_health-encode n sample v c payload raw packed sent,
      again,
      encode_health-again n sample v c payload raw again packed sent,
    )
