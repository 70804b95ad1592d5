-- ===== src/Telemetry/Health/Examples.antt =====
-- The assessment of one frame: warm, with a low battery and a sensor fault.
use cislunar_ground_platform.Base.{◌≡◌, ◌↔◌, refl, some, ok, Ensures}
use cislunar_ground_platform.Base.Int.{pos, ◌+ℤ◌, ◌-ℤ◌}
use cislunar_ground_platform.Std.Datetime.{Datetime, utc}
use cislunar_ground_platform.Telemetry.Codec.{TelemetryFrame, validate_fields, timestamp_us_of}
use cislunar_ground_platform.Telemetry.Codec.Validation.{IsValid, validate_fields_iff}
use cislunar_ground_platform.Telemetry.Health.{nominal, stale, assess_health}
use cislunar_ground_platform.Telemetry.Health.Severity.{
  IsMostSevere, IsNominalBand, IsOld, assess_health_exact,
}

abbrev frame : TelemetryFrame
frame = record {
  payload_id = pos 1;
  boot_id = pos 7;
  sequence_number = pos 3;
  timestamp_us = pos 1767225660000000;
  temperature_centi_c = pos 6300;
  voltage_mv = pos 25900;
  operating_mode = pos 2;
  fault_flags = pos 0x09;
  protocol_version = pos 1;
}

-- Received two days after the sample.
abbrev received : Datetime
received = utc 1767398460000000

checked : validate_fields frame (some received) ≡ ok tt
unfolding validate_fields timestamp_us_of ◌+ℤ◌ ◌-ℤ◌
checked = refl

valid : IsValid frame (some received)
valid = (validate_fields_iff frame (some received)).0 checked

assess_health_exact_example :
    Ensures
      (λ a.
        IsMostSevere a
        × ((a.classification ≡ nominal) ↔ IsNominalBand frame)
        × ((a.freshness ≡ stale) ↔ IsOld frame received))
      (assess_health frame received)
assess_health_exact_example = assess_health_exact frame received valid
