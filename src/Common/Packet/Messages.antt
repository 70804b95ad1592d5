-- ===== src/Common/Packet/Messages.antt =====
-- common/packet.py: the three messages of the earlier path are read back.
use cislunar_ground_platform.Base.{Bytes, ok, ◌>>=◌, ◌≡◌}
use cislunar_ground_platform.Base.Int.{ℤ}
use cislunar_ground_platform.Common.Packet.{
  HealthTelemetry, CommandAck, CommandFrame, encode_health, encode_ack, encode_command,
  decode_space_packet, decode_ack, decode_command,
}
use cislunar_ground_platform.Common.Packet.RoundTrip.{decode_ack-encode, decode_command-encode}
use cislunar_ground_platform.Common.Packet.Health.{ReadsBack, encode_health-ReadsBack}

-- Each message that could be encoded is read back: an acknowledgement through the space packet that
-- carries it, whatever its sequence count, and a command from its own frame, exactly; a health sample
-- through its packet with the same time, speed, mode and faults, and with the doubles nearest to its
-- rounded voltage over 1000 and its rounded temperature over 100. Those round to the same numbers
-- again, so the sample that is read back is encoded to the same bytes.
pub decode_messages-encode :
    (n : ℤ) (sample : HealthTelemetry) (ack : CommandAck) (frame : CommandFrame)
    (sample_raw ack_raw frame_raw : Bytes)
    → encode_health n sample ≡ ok sample_raw
    → encode_ack n ack ≡ ok ack_raw
    → encode_command frame ≡ ok frame_raw
    → ReadsBack n sample sample_raw
      × ((decode_space_packet ack_raw >>= decode_ack) ≡ ok ack)
      × (decode_command frame_raw ≡ ok frame)
decode_messages-encode n sample ack frame sample_raw ack_raw frame_raw h a c = (
  encode_health-ReadsBack n sample sample_raw h,
  decode_ack-encode n ack ack_raw a,
  decode_command-encode frame frame_raw c,
)
