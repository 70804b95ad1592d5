-- ===== src/Telemetry/Storage/Jobs/Retries.antt =====
-- Failed attempts: the waiting time, and when a job is given up.
use cislunar_ground_platform.Base.{
  ℕ, zero, suc, ◌+◌, ◌-◌, ◌*◌, ◌^◌, ◌≤◌, ◌<◌, Bool, true, false, not, ◌||◌, none, some, String,
  ◌==◌, Ensures, ◌≡◌, ◌≢◌, refl, arith, inl, inr, Bool-cases,
}
use cislunar_ground_platform.Telemetry.Storage.Records.{
  Uuid, Instant, TelemetryProcessingJob, ProcessingFailureResult, ProcessingJobState,
}
use cislunar_ground_platform.Telemetry.Storage.Tables.{Db, get_job}
use cislunar_ground_platform.Telemetry.Storage.Jobs.{is_claimable, text_is}
use cislunar_ground_platform.Telemetry.Storage.Jobs.Lifecycle.{get_job-save_job}
use cislunar_ground_platform.Telemetry.Storage.Completion.{
  backoff_seconds, is_exhausted, given_up_job, waiting_job, save_failure, fail_by_state,
  fail_processing_attempt,
}

pow_positive : (n : ℕ) → 1 ≤ 2 ^ n
pow_positive zero = omega arith
pow_positive (suc n) = ground (arith, pow_positive n)

pow_monotone : (m n : ℕ) → m ≤ n → 2 ^ m ≤ 2 ^ n
pow_monotone zero n h = pow_positive n
pow_monotone (suc m) zero h = absurd (omega arith)
pow_monotone (suc m) (suc n) h = ground (arith, pow_monotone m n)

times_monotone : (b m n : ℕ) → m ≤ n → b * m ≤ b * n
times_monotone zero m n h = ground arith
times_monotone (suc b) m n h = ground (arith, times_monotone b m n h)

least_product : (b n : ℕ) → 1 ≤ b → 1 ≤ n → 1 ≤ b * n
least_product (suc b) n h k = ground arith
least_product zero n h k = absurd (omega arith)

-- The waiting time is between one second and five minutes, and does not fall with the attempts.
pub backoff_seconds-bounds :
    (base m n : ℕ)
    → 1 ≤ base
    → m ≤ n
    → (1 ≤ backoff_seconds base m)
      × (backoff_seconds base m ≤ backoff_seconds base n)
      × (backoff_seconds base n ≤ 300)
unfolding backoff_seconds
backoff_seconds-bounds base m n positive h = ground (
  arith,
  least_product base (2 ^ (m - 1)) positive (pow_positive (m - 1)),
  times_monotone base (2 ^ (m - 1)) (2 ^ (n - 1)) (pow_monotone (m - 1) (n - 1) (omega (arith, h))),
)

-- A retry is scheduled: the job waits, and is not due before its time.
abbrev pub Waits : TelemetryProcessingJob → ℕ → Instant → TelemetryProcessingJob → Type 0
Waits job base now after =
    (after.state ≡ ProcessingJobState.retry_wait)
    × (after.next_attempt_at ≡ some (now + backoff_seconds base job.attempt_count * 1000000))
    × (after.attempt_count ≡ job.attempt_count)
    × ((later : Instant)
        → later < now + backoff_seconds base job.attempt_count * 1000000
        → is_claimable after later ≡ false)

-- The job is given up: it is never due again.
abbrev pub GivenUp : TelemetryProcessingJob → Type 0
GivenUp after =
    (after.state ≡ ProcessingJobState.failed)
    × (after.next_attempt_at ≡ none)
    × ((later : Instant) → is_claimable after later ≡ false)

-- What the call reports is what the row says.
abbrev pub Reports : ProcessingFailureResult → TelemetryProcessingJob → Type 0
Reports r j =
    (r.state ≡ j.state)
    × (r.next_attempt_at ≡ j.next_attempt_at)
    × (r.attempt_count ≡ j.attempt_count)

-- What a failed attempt does to a job, and what it reports.
abbrev pub Fails :
    Uuid → TelemetryProcessingJob → Bool → ℕ → Instant → ProcessingFailureResult × Db → Type 0
Fails i job temporary base now q =
    (after : TelemetryProcessingJob) × (get_job i q.1 ≡ some after)
    × Reports q.0 after
    × ((temporary ≡ true → job.attempt_count < job.max_attempts → Waits job base now after)
        × (temporary ≡ false → GivenUp after)
        × (job.max_attempts ≤ job.attempt_count → GivenUp after))

fail_by_state-Fails :
    (i : Uuid) (s : ProcessingJobState) (job : TelemetryProcessingJob) (worker reason : String)
    (temporary : Bool) (base : ℕ) (now : Instant) (db : Db)
    → s ≡ ProcessingJobState.processing
    → text_is worker job.claimed_by ≡ true
    → get_job i db ≡ some job
    → Ensures
        (Fails i job temporary base now)
        (fail_by_state s job worker reason temporary base now db)
unfolding fail_by_state save_failure
fail_by_state-Fails i ProcessingJobState.processing job worker reason temporary base now db e owned
      found =
    elim (Bool-cases (not temporary || is_exhausted job)) [
      | inl stop ↦
          rw (owned, stop)
            (
              given_up_job job reason now,
              get_job-save_job i job (given_up_job job reason now) db found refl,
              (refl, refl, refl),
              (
                λ t less. ground arith,
                λ t. (refl, refl, λ later. refl),
                λ most. (refl, refl, λ later. refl),
              ),
            )
      | inr go ↦
          rw (owned, go)
            (
              waiting_job job reason base now,
              get_job-save_job i job (waiting_job job reason base now) db found refl,
              (refl, refl, refl),
              (
                λ t less. (refl, refl, refl, λ later before. ground arith),
                λ t. ground arith,
                λ most. ground arith,
              ),
            )
    ]
fail_by_state-Fails i _ job worker reason temporary base now db e owned found = cc

-- A failed attempt of a running job, reported by the worker that holds it, is never lost: a
-- temporary failure below the limit on attempts waits the backoff time of its attempt and may not be
-- claimed before; a permanent one, and one at the limit, gives the job up, so that no claim finds it
-- due again. The returned state, count and time are those of the stored row.
pub fail_processing_attempt-exact :
    (i : Uuid) (job : TelemetryProcessingJob) (worker reason : String) (temporary : Bool) (base : ℕ)
    (now : Instant) (db : Db)
    → base ≢ 0
    → get_job i db ≡ some job
    → job.state ≡ ProcessingJobState.processing
    → text_is worker job.claimed_by ≡ true
    → Ensures
        (Fails i job temporary base now)
        (fail_processing_attempt i worker reason temporary base now db)
unfolding fail_processing_attempt
fail_processing_attempt-exact i job worker reason temporary base now db positive found running
      owned =
    let zero_test : (base == 0) ≡ false = ground arith in
    rw (zero_test, found)
      (fail_by_state-Fails i job.state job worker reason temporary base now db running owned found)
