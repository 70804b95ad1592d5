-- ===== src/Common/Packet.antt =====
-- mission_ground/common/packet.py: space packets, commands and their acknowledgements. The bits that
-- `|` joins do not overlap, since the ranges are checked, so they are sums.
pub mod RoundTrip
pub mod Health
pub mod Messages
mod Examples
use cislunar_ground_platform.Base.{
  ℕ, ◌+◌, ◌-◌, ◌*◌, ◌/◌, ◌%◌, ◌^◌, Bool, true, false, not, ◌&&◌, ◌||◌, Option, none, some, List, [],
  ◌∷◌, ◌++◌, Bytes, bytes_eq, length, take, drop, ltb, leb, ◌==◌, if◌then◌else◌, Result, ok, err,
  ◌>>=◌, ◌>>◌, raise_if, or_raise,
}
use cislunar_ground_platform.Base.Int.{ℤ, pos, leb_ℤ, eqb_ℤ, pos_part}
use cislunar_ground_platform.Std.Float.{
  Float, finite, infinite, not_a_number, magnitude, like, half_even, multiply, divide,
}
use cislunar_ground_platform.Std.Struct.{unsigned, signed, Format, pack, unpack, size}
use cislunar_ground_platform.Std.Zlib.{crc32}

-- "!HHH", "!I", "!QHhiBB" and "!IBiQ"
abbrev pub primary_header : Format
primary_header = unsigned 2 ∷ unsigned 2 ∷ unsigned 2 ∷ []

abbrev pub crc : Format
crc = unsigned 4 ∷ []

abbrev pub health_payload : Format
health_payload = unsigned 8 ∷ unsigned 2 ∷ signed 2 ∷ signed 4 ∷ unsigned 1 ∷ unsigned 1 ∷ []

abbrev pub command_payload : Format
command_payload = unsigned 4 ∷ unsigned 1 ∷ signed 4 ∷ unsigned 8 ∷ []

abbrev pub ack_payload : Format
ack_payload = unsigned 4 ∷ unsigned 1 ∷ signed 4 ∷ unsigned 8 ∷ []

abbrev pub apid_health : ℤ
apid_health = pos 100

abbrev pub apid_command_ack : ℤ
apid_command_ack = pos 101

abbrev pub max_sequence : ℕ
max_sequence = 2 ^ 14 - 1

-- `PacketError`, `struct.error` of a value that does not fit, and what `round` raises of an infinity
-- and of a NaN.
pub data PacketError : Type 0 where
  packet_error struct_error overflow_error value_error : PacketError

pub record SpacePacket : Type 0 where
  pub apid : ℤ
  pub sequence_count : ℤ
  pub payload : Bytes
  pub packet_type : ℤ

pub record HealthTelemetry : Type 0 where
  pub timestamp_ns : ℤ
  pub bus_voltage_v : Float
  pub battery_temp_c : Float
  pub wheel_rpm : ℤ
  pub mode : ℤ
  pub fault_flags : ℤ

pub record CommandAck : Type 0 where
  pub command_id : ℤ
  pub status : ℤ
  pub applied_value : ℤ
  pub timestamp_ns : ℤ

pub record CommandFrame : Type 0 where
  pub command_id : ℤ
  pub opcode : ℤ
  pub argument : ℤ
  pub issued_ns : ℤ

abbrev pub within : ℕ → ℤ → Bool
within most z = leb_ℤ (pos 0) z && leb_ℤ z (pos most)

abbrev pub first_word : ℤ → ℤ → ℤ
first_word packet_type apid = pos (pos_part packet_type * 2 ^ 12 + 2 ^ 11 + pos_part apid)

abbrev pub second_word : ℤ → ℤ
second_word sequence_count = pos (3 * 2 ^ 14 + pos_part sequence_count)

abbrev pub checksum_of : Bytes → ℤ
checksum_of body = pos (crc32 body % 2 ^ 32)

-- The header of a packet.
abbrev pub header_values : SpacePacket → List ℤ
header_values p =
    first_word p.packet_type p.apid
    ∷ second_word p.sequence_count
    ∷ pos (length p.payload + 4 - 1)
    ∷ []

-- A body with its checksum.
unfoldable pub sealed : Bytes → Result PacketError Bytes
sealed body = do
  checksum ← or_raise (pack crc (checksum_of body ∷ [])) struct_error
  ok (body ++ checksum)

-- `encode_space_packet`
unfoldable pub encode_space_packet : SpacePacket → Result PacketError Bytes
unfolding sealed
encode_space_packet p = do
  raise_if (not (within 0x7FF p.apid)) packet_error
  raise_if (not (eqb_ℤ p.packet_type (pos 0) || eqb_ℤ p.packet_type (pos 1))) packet_error
  raise_if (not (within max_sequence p.sequence_count)) packet_error
  raise_if (bytes_eq p.payload []) packet_error
  header ← or_raise (pack primary_header (header_values p)) struct_error
  sealed (header ++ p.payload)

abbrev pub three : List ℤ → Option (ℤ × ℤ × ℤ)
three (a ∷ b ∷ c ∷ []) = some (a, b, c)
three _ = none

abbrev pub one : List ℤ → Option ℤ
one (a ∷ []) = some a
one _ = none

-- The checksum at the end of `raw`, and what stands before it.
unfoldable pub check_crc : Bytes → Result PacketError Bytes
check_crc raw = do
  values ← or_raise (unpack crc (drop (length raw - 4) raw)) struct_error
  expected ← or_raise (one values) struct_error
  let body = take (length raw - 4) raw in
      do raise_if (not (eqb_ℤ expected (checksum_of body))) packet_error; ok body

-- `decode_space_packet` with the words of the header.
unfoldable pub decode_words : Bytes → ℤ × ℤ × ℤ → Result PacketError SpacePacket
unfolding check_crc
decode_words raw (first, second, data_length) = do
  raise_if (not (length raw == 6 + pos_part data_length + 1)) packet_error
  body ← check_crc raw
  raise_if (not (pos_part first / 2 ^ 13 % 8 == 0)) packet_error
  ok (record {
    apid = pos (pos_part first % 2 ^ 11);
    sequence_count = pos (pos_part second % 2 ^ 14);
    payload = drop 6 body;
    packet_type = pos (pos_part first / 2 ^ 12 % 2);
  })

-- `decode_space_packet`
unfoldable pub decode_space_packet : Bytes → Result PacketError SpacePacket
unfolding decode_words
decode_space_packet raw = do
  raise_if (ltb (length raw) (6 + 4 + 1)) packet_error
  values ← or_raise (unpack primary_header (take 6 raw)) struct_error
  words ← or_raise (three values) struct_error
  decode_words raw words

abbrev pub packet : ℤ → ℤ → Bytes → SpacePacket
packet apid sequence_count payload = record {
  apid = apid;
  sequence_count = sequence_count;
  payload = payload;
  packet_type = pos 0;
}

abbrev pub health_values : HealthTelemetry → ℤ → ℤ → List ℤ
health_values h millivolts centidegrees =
    h.timestamp_ns ∷ millivolts ∷ centidegrees ∷ h.wheel_rpm ∷ h.mode ∷ h.fault_flags ∷ []

-- `round(value)`: a half goes to the even integer.
unfoldable pub rounded : Float → Result PacketError ℤ
rounded (finite n d) = ok (like n (half_even (magnitude n) d))
rounded infinite = err overflow_error
rounded not_a_number = err value_error

unfoldable pub encode_health : ℤ → HealthTelemetry → Result PacketError Bytes
unfolding encode_space_packet multiply rounded
encode_health sequence_count sample = do
  millivolts ← rounded (multiply sample.bus_voltage_v 1000)
  centidegrees ← rounded (multiply sample.battery_temp_c 100)
  payload ←
      or_raise (pack health_payload (health_values sample millivolts centidegrees)) struct_error
  encode_space_packet (packet apid_health sequence_count payload)

unfoldable pub health_of : List ℤ → Option HealthTelemetry
unfolding divide
health_of (t ∷ v ∷ c ∷ r ∷ m ∷ f ∷ []) = some (record {
  timestamp_ns = t;
  bus_voltage_v = divide v 1000;
  battery_temp_c = divide c 100;
  wheel_rpm = r;
  mode = m;
  fault_flags = f;
})
health_of _ = none

-- The payload of a packet of an application, of the size of a format.
unfoldable pub payload_values : ℤ → Format → SpacePacket → Result PacketError (List ℤ)
payload_values apid format p = do
  raise_if (not (eqb_ℤ p.apid apid)) packet_error
  raise_if (not (length p.payload == size format)) packet_error
  or_raise (unpack format p.payload) struct_error

unfoldable pub decode_health : SpacePacket → Result PacketError HealthTelemetry
unfolding payload_values health_of
decode_health p = do
  values ← payload_values apid_health health_payload p
  or_raise (health_of values) struct_error

abbrev pub ack_values : CommandAck → List ℤ
ack_values a = a.command_id ∷ a.status ∷ a.applied_value ∷ a.timestamp_ns ∷ []

unfoldable pub encode_ack : ℤ → CommandAck → Result PacketError Bytes
unfolding encode_space_packet
encode_ack sequence_count ack = do
  payload ← or_raise (pack ack_payload (ack_values ack)) struct_error
  encode_space_packet (packet apid_command_ack sequence_count payload)

abbrev pub ack_of : List ℤ → Option CommandAck
ack_of (c ∷ s ∷ v ∷ t ∷ []) =
    some (record { command_id = c; status = s; applied_value = v; timestamp_ns = t })
ack_of _ = none

unfoldable pub decode_ack : SpacePacket → Result PacketError CommandAck
unfolding payload_values
decode_ack p = do
  values ← payload_values apid_command_ack ack_payload p
  or_raise (ack_of values) struct_error

abbrev pub command_values : CommandFrame → List ℤ
command_values f = f.command_id ∷ f.opcode ∷ f.argument ∷ f.issued_ns ∷ []

unfoldable pub encode_command : CommandFrame → Result PacketError Bytes
unfolding sealed
encode_command frame = do
  payload ← or_raise (pack command_payload (command_values frame)) struct_error
  sealed payload

abbrev pub command_of : List ℤ → Option CommandFrame
command_of (c ∷ o ∷ a ∷ t ∷ []) =
    some (record { command_id = c; opcode = o; argument = a; issued_ns = t })
command_of _ = none

unfoldable pub decode_command : Bytes → Result PacketError CommandFrame
unfolding check_crc
decode_command raw = do
  raise_if (not (length raw == size command_payload + 4)) packet_error
  payload ← check_crc raw
  values ← or_raise (unpack command_payload payload) struct_error
  or_raise (command_of values) struct_error
