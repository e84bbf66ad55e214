-- ===== src/Tasks.antt =====
-- backend/app/workers/tasks.py: the periodic jobs, each in a session of its own.
pub mod Sweeps
pub mod Pool
pub mod Found
use ride_flow.Prelude.{ℕ, suc, ◌+◌, ◌*◌, Bool, false, ◌&&◌, ltb, List, [], ◌∷◌, Option, none, some}
use ride_flow.Models.{Uuid, DateTime, DriverProfile, IdempotencyRecord}
use ride_flow.Config.{Settings}
use ride_flow.Sql.{Sql}
use ride_flow.Redis.{Redis}
use ride_flow.Database.{
  Db, World, Action, Handler, Result, ok, ◌>>=◌, ◌>>◌, pure, on_db, session_scope,
}
use ride_flow.Matching.{remove_driver_from_pool}
use ride_flow.Drivers.{save_profile}

-- `last_heartbeat_at < cutoff`, which NULL fails, with the cutoff brought to the other side.
abbrev pub older_than : ℕ → DateTime → Option DateTime → Bool
older_than seconds now none = false
older_than seconds now (some t) = ltb (t + seconds) now

abbrev pub is_stale : Settings → DateTime → DriverProfile → Bool
is_stale settings now p =
    p.is_available && older_than settings.driver_stale_after_seconds now p.last_heartbeat_at

abbrev pub is_outdated : DateTime → IdempotencyRecord → Bool
is_outdated now r = older_than (7 * 86400) now (some r.created_at)

module _ ⦃sql : Sql⦄ ⦃redis : Redis⦄ where
  -- One step of the loop: the profile in the database and the pool in Redis.
  unfoldable pub evict_driver : DriverProfile → Handler (Unit {0})
  evict_driver p w = (
    ok tt,
    record w {
      db = (save_profile (record p { is_available = false }) w.db).1;
      geo = remove_driver_from_pool p.user_id w.geo;
    },
  )

  -- The loop, and how many drivers it evicted.
  unfoldable pub evict_each : List DriverProfile → Handler ℕ
  evict_each [] = pure 0
  evict_each (p ∷ ps) = do evict_driver p; evicted ← evict_each ps; pure (suc evicted)

  unfoldable pub evict_stale_drivers : Settings → DateTime → Handler ℕ
  evict_stale_drivers settings now w =
      evict_each (sql.select (is_stale settings now) w.db.driver_profiles) w

  -- The job, in its session.
  unfoldable pub run_evict_stale_drivers : Settings → DateTime → World → Result ℕ × World
  run_evict_stale_drivers settings now = session_scope (evict_stale_drivers settings now)

module _ ⦃sql : Sql⦄ where
  unfoldable pub cleanup_idempotency_records : DateTime → Action Db ℕ
  cleanup_idempotency_records now db =
      let (deleted, records) = sql.delete (is_outdated now) db.idempotency_records in
      (ok deleted, record db { idempotency_records = records })

  unfoldable pub run_cleanup_idempotency_records :
      ⦃redis : Redis⦄ → DateTime → World → Result ℕ × World
  run_cleanup_idempotency_records now = session_scope (on_db (cleanup_idempotency_records now))
