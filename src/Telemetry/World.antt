-- ===== src/Telemetry/World.antt =====
-- The two stores that the services share: the queue in Redis and the database.
use cislunar_ground_platform.Telemetry.Queue.Lists.{Redis}
use cislunar_ground_platform.Telemetry.Storage.Tables.{Db}

pub record World : Type 0 where
  pub redis : Redis
  pub db : Db
