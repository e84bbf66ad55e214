-- ===== src/Tests/Availability.antt =====
-- The theorems on the requests of drivers, on the test data.
use ride_flow.Prelude.{true, false, nat_eq, Option, none, some, [], ◌∷◌, ◌≡◌, refl}
use ride_flow.Models.{Float, DriverProfile}
use ride_flow.Schemas.{HeartbeatRequest, AvailabilityRequest}
use ride_flow.Database.{World, ok, with_session, commit, constraints}
use ride_flow.Dependencies.{require_roles}
use ride_flow.Drivers.{
  profile_of, keep_or_create, get_or_create_profile, save_profile, seen, locate_if_available,
  record_heartbeat, heartbeat_of, heartbeat, enter_pool, enter_or_leave, switch,
  set_availability_of, set_availability, serve_heartbeat, serve_set_availability,
}
use ride_flow.Drivers.Pool.{Switched, Beaten}
use ride_flow.Drivers.Saved.{IsStored}
use ride_flow.Drivers.Stored.{serve_set_availability-pool, serve_heartbeat-pool}
use ride_flow.Tests.Tables.{list_sql}
use ride_flow.Tests.Strings.{map_redis}
use ride_flow.Tests.Data.{dan, db, world, env}

abbrev profile_at : Option Float → DriverProfile
profile_at lat = record {
  id = 40;
  user_id = 5;
  vehicle_make = "";
  vehicle_plate = "";
  is_available = false;
  last_lat = lat;
  last_lng = some 4;
  last_heartbeat_at = none;
  rating = 0;
}

abbrev world_at : Option Float → World
world_at lat = record world { db = record db { driver_profiles = profile_at lat ∷ [] } }

abbrev available : AvailabilityRequest
available = record { is_available = true }

abbrev switched_on : DriverProfile
switched_on = record (profile_at (some 3)) { is_available = true }

switches : (serve_set_availability env available dan (world_at (some 3))).0 ≡ ok switched_on
unfolding serve_set_availability set_availability set_availability_of require_roles
    get_or_create_profile profile_of keep_or_create switch save_profile enter_or_leave enter_pool
    with_session commit constraints
switches = refl

serve_set_availability-pool_example :
    let w' = (serve_set_availability env available dan (world_at (some 3))).1 in
    Switched dan available (world_at (some 3)) switched_on w' × IsStored dan switched_on w'.db
serve_set_availability-pool_example =
    serve_set_availability-pool env dan available switched_on (world_at (some 3)) switches

abbrev beat : HeartbeatRequest
beat = record { lat = 8; lng = 9 }

abbrev beaten : DriverProfile
beaten = seen env beat (profile_at none)

beats : (serve_heartbeat env beat dan (world_at none)).0 ≡ ok beaten
unfolding serve_heartbeat heartbeat heartbeat_of require_roles get_or_create_profile profile_of
    keep_or_create record_heartbeat save_profile locate_if_available with_session commit constraints
beats = refl

serve_heartbeat-pool_example :
    let w' = (serve_heartbeat env beat dan (world_at none)).1 in
    Beaten dan beat (world_at none) beaten w' × IsStored dan beaten w'.db
serve_heartbeat-pool_example = serve_heartbeat-pool env dan beat beaten (world_at none) beats
