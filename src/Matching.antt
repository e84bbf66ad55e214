-- ===== src/Matching.antt =====
-- backend/app/services/matching.py: the drivers around a pickup and the reservation of one.
pub mod Holders
pub mod Reserve
pub mod Search
use ride_flow.Prelude.{
  ℕ, Bool, true, false, ◌||◌, ◌==◌, nat_eq, option_eq, if◌then◌else◌, List, [], ◌∷◌, Option, none,
  some,
}
use ride_flow.Models.{Uuid, DateTime, Float}
use ride_flow.Config.{Settings}
use ride_flow.Sql.{Sql}
use ride_flow.Redis.{Redis, reservation}
use ride_flow.Database.{World, Handler, Action, ok, ◌>>=◌, pure, gets, modify}

-- `radius_km or settings.driver_search_radius_km`: the default stands in for None and for 0.0,
-- of either sign.
abbrev pub or_default : Option Float → Float → Float
or_default none default = default
or_default (some r) default = if r == 0 || r == 0x8000000000000000 then default else r

module _ ⦃redis : Redis⦄ where
  unfoldable pub upsert_driver_location : Uuid → Float → Float → redis.Geo → redis.Geo
  upsert_driver_location driver_id lat lng geo = redis.geoadd lng lat driver_id geo

  unfoldable pub remove_driver_from_pool : Uuid → redis.Geo → redis.Geo
  remove_driver_from_pool driver_id geo = redis.zrem driver_id geo

  unfoldable pub find_nearby_drivers :
      Settings → Float → Float → Option Float → ℕ → redis.Geo → List Uuid
  find_nearby_drivers settings lat lng radius_km count geo =
      redis.geosearch lng lat (or_default radius_km settings.driver_search_radius_km) count geo

  unfoldable pub try_reserve_driver :
      Settings → DateTime → Uuid → Uuid → redis.Strings → Bool × redis.Strings
  try_reserve_driver settings now driver_id ride_id strings =
      redis.set_nx_ex now (reservation driver_id) ride_id settings.driver_reservation_ttl_seconds
        strings

  unfoldable pub release_driver_reservation :
      DateTime → Uuid → Uuid → redis.Strings → Bool × redis.Strings
  release_driver_reservation now driver_id ride_id strings =
      if redis.get now (reservation driver_id) strings == some ride_id
      then (true, redis.delete now (reservation driver_id) strings)
      else (false, strings)

  -- The loop of `find_and_reserve_driver` over the candidates.
  unfoldable pub reserve_first :
      Settings → DateTime → Uuid → List Uuid → redis.Strings → Option Uuid × redis.Strings
  reserve_first settings now ride_id [] strings = (none, strings)
  reserve_first settings now ride_id (driver_id ∷ rest) strings =
      let (reserved, strings') = try_reserve_driver settings now driver_id ride_id strings in
      let further = reserve_first settings now ride_id rest strings' in
      if reserved then (some driver_id, strings') else further

  unfoldable pub find_and_reserve_driver :
      Settings
      → DateTime
      → Float
      → Float
      → Uuid
      → redis.Geo
      → redis.Strings
      → Option Uuid × redis.Strings
  find_and_reserve_driver settings now lat lng ride_id geo strings =
      reserve_first settings now ride_id (find_nearby_drivers settings lat lng none 10 geo) strings
