-- ===== src/Telemetry/Health/Severity.antt =====
-- health.py: the combined classification and the freshness of a valid frame.
use cislunar_ground_platform.Base.{
  ℕ, ◌+◌, ◌≤◌, ◌<◌, ◌≡◌, refl, true, some, bit_and, leb, ◌==◌, if◌then◌else◌, every_below,
  every_below-true, ==_iff, ok, Ensures, subst, arith, ◌↔◌, ◌⊎◌,
}
use cislunar_ground_platform.Base.Int.{
  ℤ, pos, negsuc, ◌+ℤ◌, ◌-ℤ◌, ◌≤ℤ◌, ltb_ℤ, -ℤ_parts, +ℤ_parts, pos_part,
}
use cislunar_ground_platform.Std.Datetime.{Datetime, since_epoch_us}
use cislunar_ground_platform.Telemetry.Codec.{TelemetryFrame, timestamp_us_of}
use cislunar_ground_platform.Telemetry.Codec.Validation.{IsValid}
use cislunar_ground_platform.Telemetry.Health.{
  HealthClassification, nominal, current, stale, HealthAssessment, severity_rank,
  classify_temperature, classify_voltage, classify_flags, classify_faults, classify_staleness,
  assess_health, stale_after_us, max_rank,
}

-- The fault rule without bit masks: the upper three defined bits are critical, the lower three warn.
abbrev pub fault_severity : ℕ → ℕ
fault_severity x = if leb 8 x then 2 else if leb 1 x then 1 else 0

flags_table : every_below 64 (λ x. severity_rank (classify_flags x) == fault_severity x) ≡ true
unfolding every_below classify_flags
flags_table = refl

mask_table : every_below 64 (λ x. bit_and x 0xC0 == 0) ≡ true
unfolding every_below
mask_table = refl

-- What the assessment of a frame with its components must be.
abbrev pub IsMostSevere : HealthAssessment → Type 0
IsMostSevere a =
    (severity_rank a.temperature ≤ severity_rank a.classification)
    × (severity_rank a.voltage ≤ severity_rank a.classification)
    × (severity_rank a.faults ≤ severity_rank a.classification)
    × ((a.classification ≡ a.temperature)
        ⊎ (a.classification ≡ a.voltage)
        ⊎ (a.classification ≡ a.faults))

-- The severity of a valid byte of fault flags.
classify_flags-severity : (x : ℕ) → x < 64 → severity_rank (classify_flags x) ≡ fault_severity x
classify_flags-severity x h = (==_iff _ _).0 (
    every_below-true 64 (λ y. severity_rank (classify_flags y) == fault_severity y) x flags_table h)

classify_faults_flags : (x : ℕ) → x < 64 → classify_faults (pos x) ≡ ok (classify_flags x)
unfolding classify_faults
classify_faults_flags x h =
    ground (arith, every_below-true 64 (λ y. bit_and y 0xC0 == 0) x mask_table h)

-- The band in which nothing is reported.
abbrev pub IsNominalBand : TelemetryFrame → Type 0
IsNominalBand f =
    (negsuc 1999 ≤ℤ f.temperature_centi_c)
    × (f.temperature_centi_c ≤ℤ pos 6199)
    × (pos 26000 ≤ℤ f.voltage_mv)
    × (f.voltage_mv ≤ℤ pos 30000)
    × (pos_part f.fault_flags ≡ 0)

-- The sample is more than 24 hours older than the receipt.
abbrev pub IsOld : TelemetryFrame → Datetime → Type 0
IsOld f r =
    (o : ℤ) × (r.utcoffset ≡ some o)
    × (f.timestamp_us +ℤ pos (stale_after_us + 1) ≤ℤ since_epoch_us r o)

staleness_valid :
    (t : ℤ) (r : Datetime) (o : ℤ)
    → r.utcoffset ≡ some o
    → classify_staleness t r
      ≡ ok (if ltb_ℤ (pos stale_after_us) (since_epoch_us r o -ℤ t) then stale else current)
unfolding classify_staleness timestamp_us_of
staleness_valid t r o e = rw (e, timestamp_us_of)

old_iff :
    (t s : ℤ)
    → ((if ltb_ℤ (pos stale_after_us) (s -ℤ t) then stale else current) ≡ stale)
      ↔ (t +ℤ pos (stale_after_us + 1) ≤ℤ s)
old_iff t s = (
  λ e. ground (arith, -ℤ_parts s t, +ℤ_parts t (pos (stale_after_us + 1))),
  λ h. ground (arith, -ℤ_parts s t, +ℤ_parts t (pos (stale_after_us + 1))),
)

nominal_temperature :
    (t : ℤ) → (classify_temperature t ≡ nominal) ↔ ((negsuc 1999 ≤ℤ t) × (t ≤ℤ pos 6199))
unfolding classify_temperature
nominal_temperature t = (λ e. ground arith, λ h. ground arith)

nominal_voltage : (v : ℤ) → (classify_voltage v ≡ nominal) ↔ ((pos 26000 ≤ℤ v) × (v ≤ℤ pos 30000))
unfolding classify_voltage
nominal_voltage v = (λ e. ground arith, λ h. ground arith)

nominal_flags : (x : ℕ) → x < 64 → (classify_flags x ≡ nominal) ↔ (x ≡ 0)
nominal_flags x h = (
  λ e. ground (arith, classify_flags-severity x h),
  λ e. ground (arith, classify_flags-severity x h),
)

-- The components of an assessment that does not raise.
assess_health_valid :
    (f : TelemetryFrame) (r : Datetime) (o : ℤ) (x : ℕ)
    → r.utcoffset ≡ some o
    → f.fault_flags ≡ pos x
    → x < 64
    → assess_health f r
      ≡ ok (record {
        classification =
            max_rank
              (max_rank
                (classify_temperature f.temperature_centi_c)
                (classify_voltage f.voltage_mv))
              (classify_flags x);
        freshness =
            if ltb_ℤ (pos stale_after_us) (since_epoch_us r o -ℤ f.timestamp_us)
            then stale
            else current;
        temperature = classify_temperature f.temperature_centi_c;
        voltage = classify_voltage f.voltage_mv;
        faults = classify_flags x;
      })
unfolding assess_health
assess_health_valid f r o x e g h =
    rw (g, classify_faults_flags x h, staleness_valid f.timestamp_us r o e)

max_rank_upper :
    (a b c : HealthClassification)
    → let m = max_rank (max_rank a b) c in
      (severity_rank a ≤ severity_rank m)
      × (severity_rank b ≤ severity_rank m)
      × (severity_rank c ≤ severity_rank m)
      × ((m ≡ a) ⊎ (m ≡ b) ⊎ (m ≡ c))
max_rank_upper a b c = ground arith

max_rank_nominal :
    (a b c : HealthClassification)
    → (max_rank (max_rank a b) c ≡ nominal) ↔ ((a ≡ nominal) × (b ≡ nominal) × (c ≡ nominal))
max_rank_nominal a b c = (λ e. ground arith, λ h. ground arith)

-- On every frame that passes the checks the assessment returns: the classification is that of
-- the most severe component, it is NOMINAL exactly in the nominal band, and the frame is STALE
-- exactly if the sample is more than 24 hours older than the receipt.
pub assess_health_exact :
    (f : TelemetryFrame) (r : Datetime)
    → IsValid f (some r)
    → Ensures
        (λ a.
          IsMostSevere a
          × ((a.classification ≡ nominal) ↔ IsNominalBand f)
          × ((a.freshness ≡ stale) ↔ IsOld f r))
        (assess_health f r)
assess_health_exact f r (identity, (o, zone, timely), reading) =
    let x : ℕ = pos_part f.fault_flags in
    let byte : f.fault_flags ≡ pos x = ground arith in
    let small : x < 64 = ground arith in
    let t = classify_temperature f.temperature_centi_c in
    let v = classify_voltage f.voltage_mv in
    rw (assess_health_valid f r o x zone byte small) (
      max_rank_upper t v (classify_flags x),
      (
        λ e.
            let (a, b, c) = (max_rank_nominal t v (classify_flags x)).0 e in
            let (p, q) = (nominal_temperature f.temperature_centi_c).0 a in
            let (p', q') = (nominal_voltage f.voltage_mv).0 b in
            (p, q, p', q', (nominal_flags x small).0 c),
        λ band. (max_rank_nominal t v (classify_flags x)).1 (
          (nominal_temperature f.temperature_centi_c).1 (band.0, band.1),
          (nominal_voltage f.voltage_mv).1 (band.2, band.3),
          (nominal_flags x small).1 band.4,
        ),
      ),
      (
        λ e. (o, zone, (old_iff f.timestamp_us (since_epoch_us r o)).0 e),
        λ old. (old_iff f.timestamp_us (since_epoch_us r o)).1 (
            subst (λ z. f.timestamp_us +ℤ pos (stale_after_us + 1) ≤ℤ since_epoch_us r z)
              (cc (zone, old.1)) old.2),
      ),
    )
