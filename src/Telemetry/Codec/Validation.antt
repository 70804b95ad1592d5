-- ===== src/Telemetry/Codec/Validation.antt =====
-- What `_validate_fields` accepts, as a predicate on frames that does not mention the code's order.
use cislunar_ground_platform.Base.{
  ℕ, ◌-◌, ◌^◌, ◌<◌, ◌≡◌, refl, true, Option, none, some, bit_and, ltb, leb, ◌==◌, if◌then◌else◌,
  every_below, every_below-true, ok, >>=-eq-ok, arith, ◌↔◌, ◌⊎◌, inl, inr, Option-cases,
}
use cislunar_ground_platform.Base.Int.{ℤ, pos, negsuc, ◌+ℤ◌, ◌≤ℤ◌, pos_part}
use cislunar_ground_platform.Std.Datetime.{Datetime, since_epoch_us}
use cislunar_ground_platform.Telemetry.Codec.{
  TelemetryFrame, uint32_max, project_epoch_us, max_future_skew_us, timestamp_us_of,
  validate_identity, validate_receipt_time, validate_values, validate_fields, operating_mode_of,
  OperatingMode, safe, standby, science, calibration, mode_value,
}

pub record IsValidIdentity (f : TelemetryFrame) : Type 0 where
  pub version : f.protocol_version ≡ pos 1
  pub payload : f.payload_id ≡ pos 1
  pub boot_low : pos 1 ≤ℤ f.boot_id
  pub boot_high : f.boot_id ≤ℤ pos uint32_max
  pub sequence_low : pos 0 ≤ℤ f.sequence_number
  pub sequence_high : f.sequence_number ≤ℤ pos uint32_max
  pub timestamp_low : pos project_epoch_us ≤ℤ f.timestamp_us
  pub timestamp_high : f.timestamp_us ≤ℤ pos (2 ^ 64 - 1)

pub record IsValidReading (f : TelemetryFrame) : Type 0 where
  pub temperature_low : negsuc 9999 ≤ℤ f.temperature_centi_c
  pub temperature_high : f.temperature_centi_c ≤ℤ pos 15000
  pub voltage_low : pos 0 ≤ℤ f.voltage_mv
  pub voltage_high : f.voltage_mv ≤ℤ pos 50000
  pub mode_low : pos 0 ≤ℤ f.operating_mode
  pub mode_high : f.operating_mode ≤ℤ pos 3
  pub faults_low : pos 0 ≤ℤ f.fault_flags
  pub faults_high : f.fault_flags ≤ℤ pos 0x3F

-- The sample is at most five minutes ahead of a receipt time that has a time zone.
abbrev pub IsTimely : TelemetryFrame → Option Datetime → Type 0
IsTimely f none = Unit {0}
IsTimely f (some r) =
    (o : ℤ) × (r.utcoffset ≡ some o)
    × (f.timestamp_us ≤ℤ since_epoch_us r o +ℤ pos max_future_skew_us)

abbrev pub IsValid : TelemetryFrame → Option Datetime → Type 0
IsValid f r = IsValidIdentity f × IsTimely f r × IsValidReading f

reserved_table : every_below 256 (λ x. if bit_and x 0xC0 == 0 then ltb x 64 else leb 64 x) ≡ true
unfolding every_below
reserved_table = refl

reserved_bits : (x : ℕ) → x < 256 → (if bit_and x 0xC0 == 0 then ltb x 64 else leb 64 x) ≡ true
reserved_bits x h =
    every_below-true 256 (λ x. if bit_and x 0xC0 == 0 then ltb x 64 else leb 64 x) x reserved_table
      h

validate_identity_sound : (f : TelemetryFrame) → validate_identity f ≡ ok tt → IsValidIdentity f
unfolding validate_identity
validate_identity_sound f h = ground arith

validate_identity_complete : (f : TelemetryFrame) → IsValidIdentity f → validate_identity f ≡ ok tt
unfolding validate_identity
validate_identity_complete f h = ground arith

pub mode_of-some : (z : ℤ) (m : OperatingMode) → operating_mode_of z ≡ some m → mode_value m ≡ z
unfolding operating_mode_of
mode_of-some (pos n) m h = ground arith
mode_of-some (negsuc n) m h = cc

mode_of-none : (z : ℤ) → pos 0 ≤ℤ z → z ≤ℤ pos 3 → operating_mode_of z ≡ none → ⊥
unfolding operating_mode_of
mode_of-none (pos n) lo hi h = ground arith
mode_of-none (negsuc n) lo hi h = omega arith

pub mode_value-bounds : (m : OperatingMode) → (pos 0 ≤ℤ mode_value m) × (mode_value m ≤ℤ pos 3)
mode_value-bounds safe = omega arith
mode_value-bounds standby = omega arith
mode_value-bounds science = omega arith
mode_value-bounds calibration = omega arith

pub mode_of-cases :
    (z : ℤ)
    → ((m : OperatingMode) × (operating_mode_of z ≡ some m)
        × (mode_value m ≡ z)
        × (pos 0 ≤ℤ z)
        × (z ≤ℤ pos 3))
      ⊎ ((operating_mode_of z ≡ none) × ((pos 0 ≤ℤ z) × (z ≤ℤ pos 3) → ⊥))
mode_of-cases z = elim (Option-cases (operating_mode_of z)) [
  | inl e ↦ inr (e, λ h. mode_of-none z h.0 h.1 e)
  | inr (m, e) ↦
      let v = mode_of-some z m e in
      inl (m, e, v, rw v at ((mode_value-bounds m).0), rw v at ((mode_value-bounds m).1))
]

validate_values_sound : (f : TelemetryFrame) → validate_values f ≡ ok tt → IsValidReading f
unfolding validate_values
validate_values_sound f h =
    ground (arith, mode_of-cases f.operating_mode, reserved_bits (pos_part f.fault_flags))

validate_values_complete : (f : TelemetryFrame) → IsValidReading f → validate_values f ≡ ok tt
unfolding validate_values
validate_values_complete f h =
    ground (arith, mode_of-cases f.operating_mode, reserved_bits (pos_part f.fault_flags))

validate_receipt_time_sound :
    (f : TelemetryFrame) (r : Option Datetime) → validate_receipt_time f r ≡ ok tt → IsTimely f r
unfolding validate_receipt_time timestamp_us_of
validate_receipt_time_sound f none h = tt
validate_receipt_time_sound f (some r) h = elim (Option-cases r.utcoffset) [
  | inl naive ↦ ground arith
  | inr (o, e) ↦ (o, e, ground arith)
]

validate_receipt_time_complete :
    (f : TelemetryFrame) (r : Option Datetime) → IsTimely f r → validate_receipt_time f r ≡ ok tt
unfolding validate_receipt_time timestamp_us_of
validate_receipt_time_complete f none h = refl
validate_receipt_time_complete f (some r) (o, e, h) = rw (e, timestamp_us_of) (ground arith)

-- The checks succeed on exactly the frames in the ranges of the interface.
pub validate_fields_sound :
    (f : TelemetryFrame) (r : Option Datetime) → validate_fields f r ≡ ok tt → IsValid f r
unfolding validate_fields
validate_fields_sound f r h =
    let (a, e, h') = >>=-eq-ok (validate_identity f) _ h in
    let (b, e', h'') = >>=-eq-ok (validate_receipt_time f r) _ h' in
    (validate_identity_sound f e, validate_receipt_time_sound f r e', validate_values_sound f h'')

pub validate_fields_complete :
    (f : TelemetryFrame) (r : Option Datetime) → IsValid f r → validate_fields f r ≡ ok tt
unfolding validate_fields
validate_fields_complete f r (i, t, v) =
    rw (validate_identity_complete f i, validate_receipt_time_complete f r t)
      (validate_values_complete f v)

-- The ordered checks pass exactly on the frames whose identity, receipt time and reading are valid.
pub validate_fields_iff :
    (f : TelemetryFrame) (r : Option Datetime) → (validate_fields f r ≡ ok tt) ↔ IsValid f r
validate_fields_iff f r = (validate_fields_sound f r, validate_fields_complete f r)
