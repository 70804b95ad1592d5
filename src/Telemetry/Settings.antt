-- ===== src/Telemetry/Settings.antt =====
-- mission_ground/telemetry/config.py: the checks on the settings of the services. `getenv` is the
-- environment; the addresses are not looked at, and texts are code points.
use cislunar_ground_platform.Base.{
  Bool, not, ◌&&◌, ◌||◌, Option, none, some, [], Bytes, bytes_eq, String, Result, ok, ◌>>=◌, ◌>>◌,
  raise_if, or_raise,
}
use cislunar_ground_platform.Base.Int.{ℤ, pos, leb_ℤ}
use cislunar_ground_platform.Std.Text.{codes, int_of, without_prefix}
use cislunar_ground_platform.Telemetry.Storage.Tables.{is_some}

pub data SettingsError : Type 0 where
  value_error : SettingsError

abbrev is_empty : Bytes → Bool
is_empty cs = bytes_eq cs []

-- `_positive_int`; a missing variable has the default.
unfoldable pub positive_int : (String → Option Bytes) → String → ℤ → Result SettingsError ℤ
positive_int getenv name default = elim (getenv name) [
  | none ↦ ok default
  | some raw ↦ do
    value ← or_raise (int_of raw) value_error
    raise_if (leb_ℤ value (pos 0)) value_error
    ok value
]

pub record GroundSettings : Type 0 where
  pub vendor_token : Bytes
  pub operator_token : Bytes
  pub admin_token : Bytes
  pub max_telemetry_body_bytes : ℤ
  pub processing_maximum_attempts : ℤ

-- `GroundSettings.__post_init__`
unfoldable pub check_ground_settings : GroundSettings → Result SettingsError GroundSettings
check_ground_settings s = do
  raise_if (is_empty s.vendor_token || (is_empty s.operator_token || is_empty s.admin_token))
      value_error
  raise_if
      (bytes_eq s.vendor_token s.operator_token
        || (bytes_eq s.vendor_token s.admin_token || bytes_eq s.operator_token s.admin_token))
      value_error
  raise_if
      (not
        (leb_ℤ (pos 1) s.max_telemetry_body_bytes && leb_ℤ s.max_telemetry_body_bytes (pos 1024)))
      value_error
  raise_if (leb_ℤ s.processing_maximum_attempts (pos 0)) value_error
  ok s

abbrev env_or : (String → Option Bytes) → String → String → Bytes
env_or getenv name default = elim (getenv name) [ none ↦ codes default | some value ↦ value ]

-- `GroundSettings.from_environment`
unfoldable pub ground_settings : (String → Option Bytes) → Result SettingsError GroundSettings
unfolding positive_int check_ground_settings
ground_settings getenv = do
  bytes ← positive_int getenv "MAX_TELEMETRY_BODY_BYTES" (pos 1024)
  attempts ← positive_int getenv "WORKER_MAXIMUM_ATTEMPTS" (pos 3)
  check_ground_settings (record {
    vendor_token = env_or getenv "VENDOR_TOKEN" "local-phase2-vendor-token";
    operator_token = env_or getenv "OPERATOR_TOKEN" "local-phase2-operator-token";
    admin_token = env_or getenv "ADMIN_TOKEN" "local-phase2-admin-token";
    max_telemetry_body_bytes = bytes;
    processing_maximum_attempts = attempts;
  })

-- `WorkerSettings`, of which the claim timeout is checked, with `from_environment`.
unfoldable pub check_worker_settings : ℤ → Result SettingsError ℤ
check_worker_settings claim_timeout_seconds = do
  raise_if (leb_ℤ claim_timeout_seconds (pos 0)) value_error
  ok claim_timeout_seconds

unfoldable pub worker_settings : (String → Option Bytes) → Result SettingsError ℤ
unfolding positive_int check_worker_settings
worker_settings getenv = do
  timeout ← positive_int getenv "WORKER_CLAIM_TIMEOUT_SECONDS" (pos 2)
  check_worker_settings timeout

-- The interval is a floating-point number, of which only the sign is looked at.
pub record VendorSettings : Type 0 where
  pub ground_api_url : Bytes
  pub vendor_token : Bytes
  pub boot_id_file : Bytes
  pub interval_is_negative : Bool

-- `VendorSettings.__post_init__`
unfoldable pub check_vendor_settings : VendorSettings → Result SettingsError VendorSettings
check_vendor_settings s = do
  raise_if
      (not (
        is_some (without_prefix (codes "http://") s.ground_api_url)
        || is_some (without_prefix (codes "https://") s.ground_api_url)))
      value_error
  raise_if (is_empty s.vendor_token) value_error
  raise_if (is_empty s.boot_id_file) value_error
  raise_if s.interval_is_negative value_error
  ok s
