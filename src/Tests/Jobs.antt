-- ===== src/Tests/Jobs.antt =====
-- The theorems on the periodic jobs, on the test data.
use ride_flow.Prelude.{
  ◌&&◌, ℕ, true, if◌then◌else◌, List, [], ◌∷◌, none, some, Perm, length, filterb, ◌≡◌, refl,
}
use ride_flow.Models.{Uuid, DriverProfile}
use ride_flow.Config.{default_settings}
use ride_flow.Database.{World, ok}
use ride_flow.Tasks.{is_stale, evict_stale_drivers}
use ride_flow.Tasks.Sweeps.{lapsed, is_of, evict_stale_drivers-pool}
use ride_flow.Tests.Tables.{list_sql}
use ride_flow.Tests.Strings.{map_redis}
use ride_flow.Tests.Data.{db, world}

-- Driver 5 was last seen at time 10, driver 6 at time 90.
abbrev profile : Uuid → Uuid → ℕ → DriverProfile
profile id user_id beat = record {
  id = id;
  user_id = user_id;
  vehicle_make = "";
  vehicle_plate = "";
  is_available = true;
  last_lat = some 3;
  last_lng = some 4;
  last_heartbeat_at = some beat;
  rating = 0;
}

abbrev on_duty : World
on_duty = record world {
  db = record db { driver_profiles = profile 40 5 10 ∷ profile 41 6 90 ∷ [] };
}

evict_stale_drivers-pool_example :
    let (result, w') = evict_stale_drivers default_settings 100 on_duty in
    (stale : List DriverProfile) × Perm stale (
      filterb
        (λ (p : DriverProfile).
          p.is_available
          && lapsed default_settings.driver_stale_after_seconds 100 p.last_heartbeat_at)
        on_duty.db.driver_profiles)
    × (result ≡ ok (length stale))
    × ((j : Uuid)
        → map_redis.position w'.geo j
          ≡ (if is_of j stale then none else map_redis.position on_duty.geo j))
evict_stale_drivers-pool_example = evict_stale_drivers-pool default_settings 100 on_duty

only_first :
    filterb (is_stale default_settings 100) on_duty.db.driver_profiles ≡ profile 40 5 10 ∷ []
only_first = refl
