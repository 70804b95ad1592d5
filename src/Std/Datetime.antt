-- ===== src/Std/Datetime.antt =====
-- `datetime` in microseconds: a wall clock reading counted from 1970-01-01T00:00, with the offset
-- from Coordinated Universal Time where the value has a time zone.
use cislunar_ground_platform.Base.{ℕ, Option, some}
use cislunar_ground_platform.Base.Int.{ℤ, pos, ◌-ℤ◌}

pub record Datetime : Type 0 where
  pub utcoffset : Option ℤ
  pub wall_us : ℤ

-- `datetime.fromtimestamp(us / 1e6, UTC)`: an aware value in Coordinated Universal Time.
abbrev pub utc : ℕ → Datetime
utc us = record { utcoffset = some (pos 0); wall_us = pos us }

-- `value.astimezone(UTC) - datetime(1970, 1, 1, tzinfo=UTC)` as whole microseconds, for an aware
-- value with this offset.
abbrev pub since_epoch_us : Datetime → ℤ → ℤ
since_epoch_us value offset = value.wall_us -ℤ offset
