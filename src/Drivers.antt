-- ===== src/Drivers.antt =====
-- backend/app/routers/drivers.py: the heartbeat of a driver, the switch of availability and the
-- profile of a driver.
pub mod Pool
pub mod Unlocated
pub mod Profiles
pub mod Agreement
pub mod Runs
pub mod Saved
pub mod Stored
use ride_flow.Prelude.{
  Bool, true, false, ◌==◌, nat_eq, nat_eqb, if◌then◌else◌, List, [], ◌∷◌, Option, none, some,
}
use ride_flow.Models.{Uuid, DateTime, Float, User, DriverProfile, driver}
use ride_flow.Schemas.{HeartbeatRequest, AvailabilityRequest, DriverOut, driver_out}
use ride_flow.Sql.{Sql}
use ride_flow.Redis.{Redis}
use ride_flow.Database.{
  Db, World, Action, Handler, Result, ok, err, http_exception, ◌>>=◌, ◌>>◌, pure, raise, modify,
  scalar_one_or_none, on_db, with_session,
}
use ride_flow.Request.{Env}
use ride_flow.Dependencies.{require_roles}
use ride_flow.Matching.{upsert_driver_location, remove_driver_from_pool}

-- The row of a new profile, with the defaults of the columns. The rating is the double 5.0.
abbrev pub new_profile : Env → User → DriverProfile
new_profile env user = record {
  id = env.uuid 0;
  user_id = user.id;
  vehicle_make = "";
  vehicle_plate = "";
  is_available = false;
  last_lat = none;
  last_lng = none;
  last_heartbeat_at = none;
  rating = 0x4014000000000000;
}

module _ ⦃sql : Sql⦄ where
  unfoldable pub profile_of : Uuid → Action Db (Option DriverProfile)
  profile_of user_id db = (
    scalar_one_or_none
        (sql.select (λ (p : DriverProfile). nat_eqb p.user_id user_id) db.driver_profiles),
    db,
  )

  unfoldable pub keep_or_create : Env → User → Option DriverProfile → Action Db DriverProfile
  keep_or_create env user (some profile) = pure profile
  keep_or_create env user none = do
    modify λ db. record db { driver_profiles = sql.add (new_profile env user) db.driver_profiles }
    pure (new_profile env user)

  unfoldable pub get_or_create_profile : Env → User → Action Db DriverProfile
  get_or_create_profile env user = do found ← profile_of user.id; keep_or_create env user found

  -- The changed columns of a profile, as they are flushed.
  unfoldable pub save_profile : DriverProfile → Action Db (Unit {0})
  save_profile profile = modify λ db. record db {
    driver_profiles =
        (sql.update (λ (p : DriverProfile). nat_eqb p.id profile.id) (λ _. profile)
          db.driver_profiles).1;
  }

-- The profile as a heartbeat leaves it.
abbrev pub seen : Env → HeartbeatRequest → DriverProfile → DriverProfile
seen env payload profile = record profile {
  last_lat = some payload.lat;
  last_lng = some payload.lng;
  last_heartbeat_at = some env.now;
}

abbrev pub switched : AvailabilityRequest → DriverProfile → DriverProfile
switched payload profile = record profile { is_available = payload.is_available }

module _ ⦃sql : Sql⦄ ⦃redis : Redis⦄ where
  unfoldable pub locate_if_available :
      User → HeartbeatRequest → DriverProfile → Handler DriverProfile
  locate_if_available user payload profile w =
      if profile.is_available
      then (
        ok profile,
        record w { geo = upsert_driver_location user.id payload.lat payload.lng w.geo },
      )
      else (ok profile, w)

  unfoldable pub record_heartbeat :
      Env → HeartbeatRequest → User → DriverProfile → Handler DriverProfile
  record_heartbeat env payload user profile = do
    on_db (save_profile (seen env payload profile))
    locate_if_available user payload (seen env payload profile)

  unfoldable pub heartbeat_of : Env → HeartbeatRequest → User → Handler DriverProfile
  heartbeat_of env payload user = do
    profile ← on_db (get_or_create_profile env user)
    record_heartbeat env payload user profile

  -- `heartbeat`, behind its role guard.
  unfoldable pub heartbeat : Env → HeartbeatRequest → User → Handler DriverProfile
  heartbeat env payload current_user = do
    user ← require_roles (driver ∷ []) current_user
    heartbeat_of env payload user

  -- Into the pool at the last location, which must be known.
  unfoldable pub enter_pool :
      User → DriverProfile → Option Float → Option Float → Handler DriverProfile
  enter_pool user profile (some lat) (some lng) w =
      (ok profile, record w { geo = upsert_driver_location user.id lat lng w.geo })
  enter_pool user profile _ _ w = (err (http_exception 400), w)

  unfoldable pub leave_pool : User → DriverProfile → Handler DriverProfile
  leave_pool user profile w = (ok profile, record w { geo = remove_driver_from_pool user.id w.geo })

  unfoldable pub enter_or_leave : Bool → User → DriverProfile → Handler DriverProfile
  enter_or_leave true user profile = enter_pool user profile profile.last_lat profile.last_lng
  enter_or_leave false user profile = leave_pool user profile

  unfoldable pub switch : AvailabilityRequest → User → DriverProfile → Handler DriverProfile
  switch payload user profile = do
    on_db (save_profile (switched payload profile))
    enter_or_leave payload.is_available user (switched payload profile)

  unfoldable pub set_availability_of : Env → AvailabilityRequest → User → Handler DriverProfile
  set_availability_of env payload user = do
    profile ← on_db (get_or_create_profile env user)
    switch payload user profile

  -- `set_availability`, behind its role guard.
  unfoldable pub set_availability : Env → AvailabilityRequest → User → Handler DriverProfile
  set_availability env payload current_user = do
    user ← require_roles (driver ∷ []) current_user
    set_availability_of env payload user

  unfoldable pub get_my_profile : Env → User → Handler DriverProfile
  get_my_profile env current_user = do
    user ← require_roles (driver ∷ []) current_user
    on_db (get_or_create_profile env user)

  -- The requests as they are served, each in its session.
  unfoldable pub serve_heartbeat :
      Env → HeartbeatRequest → User → World → Result DriverProfile × World
  serve_heartbeat env payload user = with_session (heartbeat env payload user)

  unfoldable pub serve_my_profile : Env → User → World → Result DriverOut × World
  serve_my_profile env user =
      with_session do profile ← get_my_profile env user; pure (driver_out profile)

  unfoldable pub serve_set_availability :
      Env → AvailabilityRequest → User → World → Result DriverProfile × World
  serve_set_availability env payload user = with_session (set_availability env payload user)
