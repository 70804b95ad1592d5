-- ===== src/Vendor/Readings.antt =====
-- services/vendor_simulator.py: the values of a request and their integer wire units.
use cislunar_ground_platform.Base.{◌-◌, ℕ, zero, suc, ◌+◌, ◌*◌, ◌/◌, ◌^◌, Bool, ◌&&◌}
use cislunar_ground_platform.Base.Int.{ℤ, pos, negsuc, leb_ℤ}
use cislunar_ground_platform.Telemetry.Codec as Codec
use cislunar_ground_platform.Telemetry.Codec.{OperatingMode}

pub data FailureMode : Type 0 where
  no_failure corrupt_crc unsupported_version skip_sequence duplicate_last : FailureMode

pub data OperatingModeName : Type 0 where
  safe standby science calibration : OperatingModeName

-- `OperatingMode[name.value]`
abbrev pub mode_named : OperatingModeName → OperatingMode
mode_named OperatingModeName.safe = Codec.safe
mode_named OperatingModeName.standby = Codec.standby
mode_named OperatingModeName.science = Codec.science
mode_named OperatingModeName.calibration = Codec.calibration

-- `Decimal(str(value))`: the value is `numerator` over 10 ^ `places`.
pub record Decimal : Type 0 where
  pub numerator : ℤ
  pub places : ℕ

pub record TelemetryRequest : Type 0 where
  pub temperature_c : Decimal
  pub voltage_v : Decimal
  pub operating_mode : OperatingModeName
  pub fault_flags : ℤ
  pub failure_mode : FailureMode

abbrev times_power : ℤ → ℕ → ℤ
times_power (pos n) p = pos (n * 10 ^ p)
times_power (negsuc n) p = negsuc (suc n * 10 ^ p - 1)

-- low <= value <= high, of integer bounds
unfoldable pub between : ℤ → ℤ → Decimal → Bool
between low high d =
    leb_ℤ (times_power low d.places) d.numerator && leb_ℤ d.numerator (times_power high d.places)

-- The bounds of the fields, which the framework checks.
unfoldable pub is_allowed : TelemetryRequest → Bool
unfolding between
is_allowed r =
    between (negsuc 99) (pos 150) r.temperature_c
    && (between (pos 0) (pos 50) r.voltage_v
        && (leb_ℤ (pos 0) r.fault_flags && leb_ℤ r.fault_flags (pos 0x3F)))

-- The nearest integer to n * factor / 10 ^ places, a half rounded up.
abbrev pub half_up : ℕ → ℕ → ℕ → ℕ
half_up n factor places = (2 * (n * factor) + 10 ^ places) / (2 * 10 ^ places)

abbrev pub minus : ℕ → ℤ
minus zero = pos 0
minus (suc n) = negsuc n

-- `_scaled`: half away from zero, as `ROUND_HALF_UP` is.
unfoldable pub scaled : Decimal → ℕ → ℤ
scaled d factor = elim d.numerator [
  | pos n ↦ pos (half_up n factor d.places)
  | negsuc n ↦ minus (half_up (suc n) factor d.places)
]
