-- ===== src/Common/Packet/RoundTrip.antt =====
-- common/packet.py: space packets, acknowledgements and commands are decoded to themselves.
use mathlib.Core.List.{append_assoc}
use cislunar_ground_platform.Base.{
  ℕ, ◌+◌, ◌-◌, ◌*◌, ◌/◌, ◌%◌, ◌^◌, ◌≤◌, true, false, not, ◌||◌, some, [], ◌∷◌, ◌++◌, Bytes,
  bytes_eq, length, take, drop, take-append, drop-append, length-append, ltb, ◌==◌, ok, ◌>>=◌, ◌≡◌,
  refl, sym, ap, ◌∙◌, subst, raise_if, or_raise, >>=-eq-ok, or_raise-eq-ok, ok-injective,
  raise_if-eq-ok, arith,
}
use cislunar_ground_platform.Base.Int.{ℤ, negsuc, pos, eqb_ℤ}
use cislunar_ground_platform.Std.Struct.{pack}
use cislunar_ground_platform.Std.Struct.RoundTrip.{length-pack, unpack-pack}
use cislunar_ground_platform.Common.Packet.{
  apid_command_ack, packet, ack_values, ack_payload, command_values, command_payload, CommandFrame,
  payload_values, CommandAck, decode_command, decode_ack, encode_command, encode_ack, packet_error,
  struct_error, SpacePacket, primary_header, crc, within, max_sequence, checksum_of, header_values,
  sealed, encode_space_packet, check_crc, decode_words, decode_space_packet, first_word,
  second_word,
}

sealed-parts :
    (body raw : Bytes)
    → sealed body ≡ ok raw
    → (checksum : Bytes) × (pack crc (checksum_of body ∷ []) ≡ some checksum)
      × (raw ≡ body ++ checksum)
unfolding sealed
sealed-parts body raw h =
    let (checksum, packed, h₁) =
      >>=-eq-ok (or_raise (pack crc (checksum_of body ∷ [])) struct_error) _ h in
    (checksum, or_raise-eq-ok _ _ packed, sym (ok-injective h₁))

length-sealed : (body raw : Bytes) → sealed body ≡ ok raw → length raw ≡ length body + 4
length-sealed body raw h =
    let (checksum, packed, e) = sealed-parts body raw h in
    ap length e ∙ omega (arith, length-append body checksum, length-pack crc _ checksum packed)

check_crc-sealed : (body raw : Bytes) → sealed body ≡ ok raw → check_crc raw ≡ ok body
unfolding check_crc
check_crc-sealed body raw h =
    let (checksum, packed, e) = sealed-parts body raw h in
    let n : length raw - 4 ≡ length body = omega (arith, length-sealed body raw h) in
    rw
      (
        n,
        e,
        take-append (length body) body checksum refl,
        drop-append (length body) body checksum refl,
        unpack-pack crc (checksum_of body ∷ []) checksum packed,
      )
      (ground arith)

-- A packet in its ranges.
pub record IsInRange (p : SpacePacket) : Type 0 where
  pub apid : within 0x7FF p.apid ≡ true
  pub kind : (eqb_ℤ p.packet_type (pos 0) || eqb_ℤ p.packet_type (pos 1)) ≡ true
  pub count : within max_sequence p.sequence_count ≡ true
  pub payload : bytes_eq p.payload [] ≡ false

encode-parts :
    (p : SpacePacket) (raw : Bytes)
    → encode_space_packet p ≡ ok raw
    → IsInRange p
      × (header : Bytes) × (pack primary_header (header_values p) ≡ some header)
      × (sealed (header ++ p.payload) ≡ ok raw)
unfolding encode_space_packet
encode-parts p raw h =
    let (a, apid, h₁) = >>=-eq-ok (raise_if (not (within 0x7FF p.apid)) packet_error) _ h in
    let (b, kind, h₂) =
      >>=-eq-ok
        (raise_if (not (eqb_ℤ p.packet_type (pos 0) || eqb_ℤ p.packet_type (pos 1))) packet_error) _
        h₁ in
    let (c, count, h₃) =
      >>=-eq-ok (raise_if (not (within max_sequence p.sequence_count)) packet_error) _ h₂ in
    let (d, payload, h₄) = >>=-eq-ok (raise_if (bytes_eq p.payload []) packet_error) _ h₃ in
    let (header, packed, h₅) =
      >>=-eq-ok (or_raise (pack primary_header (header_values p)) struct_error) _ h₄ in
    (
      record {
        apid = ground arith;
        kind = ground arith;
        count = ground arith;
        payload = raise_if-eq-ok _ packet_error payload;
      },
      header,
      or_raise-eq-ok _ _ packed,
      h₅,
    )

within-pos : (most : ℕ) (z : ℤ) → within most z ≡ true → (n : ℕ) × (z ≡ pos n) × (n ≤ most)
within-pos most (pos n) h = (n, refl, ground arith)
within-pos most (negsuc n) h = absurd (ground arith)

kind-pos : (z : ℤ) → (eqb_ℤ z (pos 0) || eqb_ℤ z (pos 1)) ≡ true → (n : ℕ) × (z ≡ pos n) × (n ≤ 1)
kind-pos (pos n) h = (n, refl, ground arith)
kind-pos (negsuc n) h = absurd (ground arith)

words_of_bits :
    (a c k : ℕ)
    → a ≤ 0x7FF
    → c ≤ max_sequence
    → k ≤ 1
    → ((k * 2 ^ 12 + 2 ^ 11 + a) % 2 ^ 11 ≡ a)
      × ((3 * 2 ^ 14 + c) % 2 ^ 14 ≡ c)
      × ((k * 2 ^ 12 + 2 ^ 11 + a) / 2 ^ 12 % 2 ≡ k)
      × ((k * 2 ^ 12 + 2 ^ 11 + a) / 2 ^ 13 % 8 ≡ 0)
words_of_bits a c k ha hc hk = (omega arith, omega arith, omega arith, omega arith)

-- The fields are read back from the words of the header.
decode_words-bits :
    (a c k : ℕ) (payload raw body : Bytes)
    → a ≤ 0x7FF
    → c ≤ max_sequence
    → k ≤ 1
    → length raw ≡ 10 + length payload
    → check_crc raw ≡ ok body
    → drop 6 body ≡ payload
    → decode_words raw
        (first_word (pos k) (pos a), second_word (pos c), pos (length payload + 4 - 1))
      ≡ ok (record { apid = pos a; sequence_count = pos c; payload = payload; packet_type = pos k })
unfolding decode_words
decode_words-bits a c k payload raw body ha hc hk n checked rest =
    let (apid, count, kind, version) = words_of_bits a c k ha hc hk in
    let fits : (length raw == 6 + (length payload + 4 - 1) + 1) ≡ true = ground arith in
    rw (fits, checked, version, apid, count, kind, rest) refl

decode_words-header :
    (p : SpacePacket) (raw body : Bytes)
    → IsInRange p
    → length raw ≡ 10 + length p.payload
    → check_crc raw ≡ ok body
    → drop 6 body ≡ p.payload
    → decode_words raw (
      first_word p.packet_type p.apid,
      second_word p.sequence_count,
      pos (length p.payload + 4 - 1),
    )
      ≡ ok p
decode_words-header p raw body r n checked rest =
    let (a, apid, ha) = within-pos 0x7FF p.apid r.apid in
    let (c, count, hc) = within-pos max_sequence p.sequence_count r.count in
    let (k, kind, hk) = kind-pos p.packet_type r.kind in
    subst
      (λ (x : ℤ × ℤ × ℤ).
        decode_words raw (first_word x.2 x.0, second_word x.1, pos (length p.payload + 4 - 1))
        ≡ ok (record { apid = x.0; sequence_count = x.1; payload = p.payload; packet_type = x.2 }))
      (λ i. (sym apid i, sym count i, sym kind i))
      (decode_words-bits a c k p.payload raw body ha hc hk n checked rest)

-- A space packet that is encoded is decoded to itself.
pub decode_space_packet-encode :
    (p : SpacePacket) (raw : Bytes)
    → encode_space_packet p ≡ ok raw
    → decode_space_packet raw ≡ ok p
unfolding decode_space_packet
decode_space_packet-encode p raw h =
    let (r, header, packed, closed) = encode-parts p raw h in
    let (checksum, crc_packed, e) = sealed-parts (header ++ p.payload) raw closed in
    let six = length-pack primary_header (header_values p) header packed in
    let n : length raw ≡ 10 + length p.payload =
      omega
        (arith, length-sealed (header ++ p.payload) raw closed, length-append header p.payload) in
    let some_payload : 1 ≤ length p.payload = nonempty p.payload r.payload in
    let long : ltb (length raw) (6 + 4 + 1) ≡ false = ground arith in
    let first : take 6 raw ≡ header =
      ap (take 6) (e ∙ append_assoc header p.payload checksum)
      ∙ take-append 6 header (p.payload ++ checksum) six in
    rw (long, first, unpack-pack primary_header (header_values p) header packed)
      (decode_words-header p raw (header ++ p.payload) r n
        (check_crc-sealed (header ++ p.payload) raw closed) (drop-append 6 header p.payload six))
  where
    nonempty : (bs : Bytes) → bytes_eq bs [] ≡ false → 1 ≤ length bs
    nonempty [] h = unfold bytes_eq in cc h
    nonempty (b ∷ bs) h = omega arith

pub decode_ack-encode :
    (n : ℤ) (ack : CommandAck) (raw : Bytes)
    → encode_ack n ack ≡ ok raw
    → (decode_space_packet raw >>= decode_ack) ≡ ok ack
unfolding encode_ack decode_ack payload_values
decode_ack-encode n ack raw h =
    let (payload, packed, h₁) =
      >>=-eq-ok (or_raise (pack ack_payload (ack_values ack)) struct_error) _ h in
    let bytes : pack ack_payload (ack_values ack) ≡ some payload = or_raise-eq-ok _ _ packed in
    let fits : (length payload == 17) ≡ true =
      ground (arith, length-pack ack_payload (ack_values ack) payload bytes) in
    rw
      (
        decode_space_packet-encode (packet apid_command_ack n payload) raw h₁,
        fits,
        unpack-pack ack_payload (ack_values ack) payload bytes,
      )
      refl

pub decode_command-encode :
    (frame : CommandFrame) (raw : Bytes)
    → encode_command frame ≡ ok raw
    → decode_command raw ≡ ok frame
unfolding encode_command decode_command
decode_command-encode frame raw h =
    let (payload, packed, h₁) =
      >>=-eq-ok (or_raise (pack command_payload (command_values frame)) struct_error) _ h in
    let bytes : pack command_payload (command_values frame) ≡ some payload =
      or_raise-eq-ok _ _ packed in
    let long : (length raw == 21) ≡ true = ground (
      arith,
      length-sealed payload raw h₁,
      length-pack command_payload (command_values frame) payload bytes,
    ) in
    rw
      (
        long,
        check_crc-sealed payload raw h₁,
        unpack-pack command_payload (command_values frame) payload bytes,
      )
      refl
