-- ===== src/Common/Packet/Examples.antt =====
-- common/packet.py: a sample, a command and its acknowledgement.
use cislunar_ground_platform.Base.{◌^◌, [], ◌∷◌, Bytes, ok, ◌>>=◌, ◌≡◌, refl}
use cislunar_ground_platform.Base.Int.{pos, negsuc}
use cislunar_ground_platform.Std.Float.{Float, finite, multiply, bounded, nearest, half_even, unit}
use cislunar_ground_platform.Std.Struct.{pack}
use cislunar_ground_platform.Std.Zlib.{crc32}
use cislunar_ground_platform.Base.{bytes_eq}
use cislunar_ground_platform.Common.Packet.{
  rounded, HealthTelemetry, CommandAck, CommandFrame, encode_health, encode_ack, encode_command,
  encode_space_packet, sealed, decode_space_packet, decode_ack, decode_command,
}
use cislunar_ground_platform.Common.Packet.Health.{ReadsBack}
use cislunar_ground_platform.Common.Packet.Messages.{decode_messages-encode}

-- 28.1004
abbrev bus_voltage : Float
bus_voltage = finite (pos 3954779717780059) (2 ^ 47)

abbrev sample : HealthTelemetry
sample = record {
  timestamp_ns = pos 1767225661000000000;
  bus_voltage_v = bus_voltage;
  battery_temp_c = finite (negsuc 8) 2;
  wheel_rpm = negsuc 1199;
  mode = pos 1;
  fault_flags = pos 4;
}

abbrev ack : CommandAck
ack = record {
  command_id = pos 12;
  status = pos 0;
  applied_value = negsuc 4;
  timestamp_ns = pos 1767225661000000001;
}

abbrev frame : CommandFrame
frame = record {
  command_id = pos 12;
  opcode = pos 2;
  argument = negsuc 4;
  issued_ns = pos 1767225660000000000;
}

abbrev sample_raw : Bytes
sample_raw =
    8 ∷ 100 ∷ 192 ∷ 3 ∷ 0 ∷ 21 ∷ 24 ∷ 134 ∷ 114 ∷ 96 ∷ 33 ∷ 220 ∷ 34 ∷ 0 ∷ 109 ∷ 196 ∷ 254 ∷ 62
    ∷ 255 ∷ 255 ∷ 251 ∷ 80 ∷ 1 ∷ 4 ∷ 210 ∷ 193 ∷ 29 ∷ 58 ∷ []

abbrev ack_raw : Bytes
ack_raw =
    8 ∷ 101 ∷ 192 ∷ 3 ∷ 0 ∷ 20 ∷ 0 ∷ 0 ∷ 0 ∷ 12 ∷ 0 ∷ 255 ∷ 255 ∷ 255 ∷ 251 ∷ 24 ∷ 134 ∷ 114 ∷ 96
    ∷ 33 ∷ 220 ∷ 34 ∷ 1 ∷ 19 ∷ 106 ∷ 146 ∷ 249 ∷ []

abbrev frame_raw : Bytes
frame_raw =
    0 ∷ 0 ∷ 0 ∷ 12 ∷ 2 ∷ 255 ∷ 255 ∷ 255 ∷ 251 ∷ 24 ∷ 134 ∷ 114 ∷ 95 ∷ 230 ∷ 65 ∷ 88 ∷ 0 ∷ 18 ∷ 159
    ∷ 146 ∷ 142 ∷ []

sample_encoded : encode_health (pos 3) sample ≡ ok sample_raw
unfolding encode_health multiply bounded nearest half_even unit rounded encode_space_packet sealed
    pack crc32 bytes_eq
sample_encoded = refl

ack_encoded : encode_ack (pos 3) ack ≡ ok ack_raw
unfolding encode_ack encode_space_packet sealed pack crc32 bytes_eq
ack_encoded = refl

frame_encoded : encode_command frame ≡ ok frame_raw
unfolding encode_command sealed pack crc32
frame_encoded = refl

decode_messages-encode_example :
    ReadsBack (pos 3) sample sample_raw
    × ((decode_space_packet ack_raw >>= decode_ack) ≡ ok ack)
    × (decode_command frame_raw ≡ ok frame)
decode_messages-encode_example =
    decode_messages-encode (pos 3) sample ack frame sample_raw ack_raw frame_raw sample_encoded
      ack_encoded frame_encoded
