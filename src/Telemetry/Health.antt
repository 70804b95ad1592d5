-- ===== src/Telemetry/Health.antt =====
-- mission_ground/telemetry/health.py: classification of a frame and its freshness.
pub mod Severity
mod Examples
use cislunar_ground_platform.Base.{
  ℕ, ◌*◌, Bool, true, false, not, ◌&&◌, ◌||◌, Option, none, some, bit_and, ltb, ◌==◌, if◌then◌else◌,
  Result, ok, err, ◌>>=◌, ◌>>◌, raise_if,
}
use cislunar_ground_platform.Base.Int.{ℤ, pos, negsuc, ◌-ℤ◌, ltb_ℤ, leb_ℤ, pos_part}
use cislunar_ground_platform.Std.Datetime.{Datetime}
use cislunar_ground_platform.Telemetry.Codec.{
  TelemetryFrame, CodecError, value_error, timestamp_us_of, outside,
}

abbrev pub stale_after_us : ℕ
stale_after_us = 24 * 3600 * 1000000

pub data HealthClassification : Type 0 where
  nominal warning critical : HealthClassification

pub data Freshness : Type 0 where
  current stale : Freshness

-- `_SEVERITY_RANK`
abbrev pub severity_rank : HealthClassification → ℕ
severity_rank nominal = 0
severity_rank warning = 1
severity_rank critical = 2

pub record HealthAssessment : Type 0 where
  pub classification : HealthClassification
  pub freshness : Freshness
  pub temperature : HealthClassification
  pub voltage : HealthClassification
  pub faults : HealthClassification

abbrev pub is_stale : HealthAssessment → Bool
is_stale a = elim a.freshness [ current ↦ false | stale ↦ true ]

unfoldable pub classify_temperature : ℤ → HealthClassification
classify_temperature t =
    if ltb_ℤ t (negsuc 3999) || leb_ℤ (pos 8500) t
    then critical
    else if ltb_ℤ t (negsuc 1999) || leb_ℤ (pos 6200) t
    then warning
    else nominal

unfoldable pub classify_voltage : ℤ → HealthClassification
classify_voltage v =
    if ltb_ℤ v (pos 22000) || ltb_ℤ (pos 34000) v
    then critical
    else if ltb_ℤ v (pos 26000) || ltb_ℤ (pos 30000) v
    then warning
    else nominal

-- Sensor faults and internal faults; the limits that the payload itself reports.
abbrev critical_flags : ℕ
critical_flags = 0x38

abbrev warning_flags : ℕ
warning_flags = 0x07

-- On a byte, `~DEFINED_FAULT_MASK` keeps the bits of 0xC0.
abbrev undefined_flags : ℕ
undefined_flags = 0xC0

classify_flags : ℕ → HealthClassification
classify_flags flags =
    if not (bit_and flags critical_flags == 0)
    then critical
    else if not (bit_and flags warning_flags == 0)
    then warning
    else nominal

unfoldable pub classify_faults : ℤ → Result CodecError HealthClassification
unfolding classify_flags
classify_faults flag_value = do
  raise_if
      (outside (pos 0) (pos 0xFF) flag_value
        || not (bit_and (pos_part flag_value) undefined_flags == 0))
      value_error
  ok (classify_flags (pos_part flag_value))

unfoldable pub classify_staleness : ℤ → Datetime → Result CodecError Freshness
classify_staleness sample_timestamp_us received = do
  received_us ← timestamp_us_of received
  ok (if ltb_ℤ (pos stale_after_us) (received_us -ℤ sample_timestamp_us) then stale else current)

-- Python's `max` by a key: the first of the greatest.
abbrev pub max_rank : HealthClassification → HealthClassification → HealthClassification
max_rank a b = if ltb (severity_rank a) (severity_rank b) then b else a

unfoldable pub assess_health : TelemetryFrame → Datetime → Result CodecError HealthAssessment
assess_health f received = do
  let temperature = classify_temperature f.temperature_centi_c
  let voltage = classify_voltage f.voltage_mv
  faults ← classify_faults f.fault_flags
  freshness ← classify_staleness f.timestamp_us received
  ok (record {
    classification = max_rank (max_rank temperature voltage) faults;
    freshness = freshness;
    temperature = temperature;
    voltage = voltage;
    faults = faults;
  })
