-- ===== src/Worker/Evaluation.antt =====
-- What the worker makes of a work item.
use cislunar_ground_platform.Base.{
  true, ok, err, Ensures-ok, ◌≡◌, ◌≢◌, ◌↔◌, refl, sym, arith, inl, inr, Bool-cases,
}
use cislunar_ground_platform.Base.Int.{ℤ, eqb_ℤ}
use cislunar_ground_platform.Std.Datetime.{utc}
use cislunar_ground_platform.Telemetry.Codec.{TelemetryFrame, decode_telemetry}
use cislunar_ground_platform.Telemetry.Codec.RoundTrip.{decode-IsValid}
use cislunar_ground_platform.Telemetry.Health.{HealthAssessment, assess_health}
use cislunar_ground_platform.Telemetry.Health.Severity.{assess_health_exact}
use cislunar_ground_platform.Telemetry.Storage.Records.{DecodedTelemetryValues, TelemetryWorkItem}
use cislunar_ground_platform.Worker.{mismatch, stored_values, same_values, result_of, evaluate}

eqb_ℤ_iff : (a b : ℤ) → (eqb_ℤ a b ≡ true) ↔ (a ≡ b)
eqb_ℤ_iff a b = (λ h. ground arith, λ h. ground arith)

same_values_iff : (a b : DecodedTelemetryValues) → (same_values a b ≡ true) ↔ (a ≡ b)
unfolding same_values
same_values_iff a b = (
  λ h. ground (
    arith,
    eqb_ℤ_iff a.protocol_version b.protocol_version,
    eqb_ℤ_iff a.payload_id b.payload_id,
    eqb_ℤ_iff a.boot_id b.boot_id,
    eqb_ℤ_iff a.sequence_number b.sequence_number,
    eqb_ℤ_iff a.sample_timestamp_us b.sample_timestamp_us,
    eqb_ℤ_iff a.temperature_centi_c b.temperature_centi_c,
    eqb_ℤ_iff a.voltage_mv b.voltage_mv,
    eqb_ℤ_iff a.operating_mode b.operating_mode,
    eqb_ℤ_iff a.fault_flags b.fault_flags,
  ),
  λ h. ground (
    arith,
    eqb_ℤ_iff a.protocol_version b.protocol_version,
    eqb_ℤ_iff a.payload_id b.payload_id,
    eqb_ℤ_iff a.boot_id b.boot_id,
    eqb_ℤ_iff a.sequence_number b.sequence_number,
    eqb_ℤ_iff a.sample_timestamp_us b.sample_timestamp_us,
    eqb_ℤ_iff a.temperature_centi_c b.temperature_centi_c,
    eqb_ℤ_iff a.voltage_mv b.voltage_mv,
    eqb_ℤ_iff a.operating_mode b.operating_mode,
    eqb_ℤ_iff a.fault_flags b.fault_flags,
  ),
)

-- If the preserved bytes decode at the time of receipt, the evaluation returns the result of the
-- decoded frame and its assessment, which never raises, when the saved fields are those of the frame,
-- and reports a mismatch when they are not.
pub evaluate-exact :
    (work : TelemetryWorkItem) (f : TelemetryFrame)
    → decode_telemetry work.raw_body (utc work.received_at) ≡ ok f
    → (work.values ≡ stored_values f
        → (a : HealthAssessment) × (assess_health f (utc work.received_at) ≡ ok a)
          × (evaluate work ≡ ok (result_of f a)))
      × (work.values ≢ stored_values f → evaluate work ≡ err mismatch)
unfolding evaluate
evaluate-exact work f decoded =
    let iff = same_values_iff (stored_values f) work.values in
    let valid = decode-IsValid work.raw_body (utc work.received_at) f decoded in
    let evaluated : (a : HealthAssessment)
        → same_values (stored_values f) work.values ≡ true
        → assess_health f (utc work.received_at) ≡ ok a
        → evaluate work ≡ ok (result_of f a) =
      λ a same assessed. rw (decoded, same, assessed) refl in
    (
      λ h.
          let (a, assessed, facts) =
            Ensures-ok _ (assess_health f (utc work.received_at))
              (assess_health_exact f (utc work.received_at) valid) in
          (a, assessed, evaluated a (iff.1 (sym h)) assessed),
      λ h. elim (Bool-cases (same_values (stored_values f) work.values)) [
        | inl same ↦ absurd (h (sym (iff.0 same)))
        | inr differ ↦ rw (decoded, differ) refl
      ],
    )
