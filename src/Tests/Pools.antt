-- ===== src/Tests/Pools.antt =====
-- The pool of the matching over a run of requests and a sweep.
use ride_flow.Prelude.{
  All, ◌≡◌, true, false, nat_eqb, Bool-cases, inl, inr, nat_eq, none, some, List, [], ◌∷◌, refl,
}
use ride_flow.Models.{DriverProfile}
use ride_flow.Config.{default_settings}
use ride_flow.Database.{World, with_session, commit, constraints}
use ride_flow.Dependencies.{require_roles}
use ride_flow.Drivers.{
  profile_of, keep_or_create, get_or_create_profile, save_profile, locate_if_available,
  record_heartbeat, heartbeat_of, heartbeat, enter_pool, enter_or_leave, switch,
  set_availability_of, set_availability, serve_heartbeat, serve_set_availability, get_my_profile,
  serve_my_profile,
}
use ride_flow.Drivers.Agreement.{Agrees}
use ride_flow.Tasks.Pool.{
  DriverEvent, beats, switches, looks, sweeps, serve_drivers, AllFresh, serve_drivers-Agrees,
}
use ride_flow.Tasks.Found.{IsOffered, find_nearby_drivers-IsOffered}
use ride_flow.Matching.{find_nearby_drivers, upsert_driver_location}
use ride_flow.Tests.Tables.{list_sql}
use ride_flow.Tests.Strings.{map_redis}
use ride_flow.Tests.Data.{dan, db, world, env}

abbrev first_profile : DriverProfile
first_profile = record {
  id = 40;
  user_id = 5;
  vehicle_make = "";
  vehicle_plate = "";
  is_available = false;
  last_lat = some 3;
  last_lng = some 4;
  last_heartbeat_at = none;
  rating = 0;
}

abbrev parked : World
parked = record world { db = record db { driver_profiles = first_profile ∷ [] }; geo = [] }

abbrev shift : List DriverEvent
shift =
    switches env (record { is_available = true }) dan
    ∷ beats env (record { lat = 8; lng = 9 }) dan
    ∷ looks env dan
    ∷ sweeps default_settings 5000
    ∷ []

parked-Agrees : Agrees parked
unfolding constraints
parked-Agrees = record {
  by_user = (refl, tt);
  by_id = (refl, tt);
  fine = refl;
  placed = λ j. elim (Bool-cases (nat_eqb 5 j)) [ inl hit ↦ rw hit refl | inr miss ↦ rw miss refl ];
}

shift-AllFresh : AllFresh shift parked
unfolding serve_my_profile get_my_profile serve_set_availability set_availability
    set_availability_of require_roles get_or_create_profile profile_of keep_or_create switch
    save_profile enter_or_leave enter_pool serve_heartbeat heartbeat heartbeat_of record_heartbeat
    locate_if_available with_session commit constraints
shift-AllFresh = (refl, (refl, (refl, (tt, tt))))

serve_drivers-Agrees_example : Agrees (serve_drivers shift parked)
serve_drivers-Agrees_example = serve_drivers-Agrees shift parked parked-Agrees shift-AllFresh

-- Without the sweep, the driver is found.
abbrev on_duty : List DriverEvent
on_duty =
    switches env (record { is_available = true }) dan
    ∷ beats env (record { lat = 8; lng = 9 }) dan
    ∷ []

on_duty-AllFresh : AllFresh on_duty parked
unfolding serve_set_availability set_availability set_availability_of require_roles
    get_or_create_profile profile_of keep_or_create switch save_profile enter_or_leave enter_pool
    with_session commit constraints
on_duty-AllFresh = (refl, (refl, tt))

finds : find_nearby_drivers default_settings 0 0 none 10 (serve_drivers on_duty parked).geo ≡ 5 ∷ []
unfolding find_nearby_drivers serve_set_availability set_availability set_availability_of
    require_roles get_or_create_profile profile_of keep_or_create switch save_profile enter_or_leave
    enter_pool serve_heartbeat heartbeat heartbeat_of record_heartbeat locate_if_available
    with_session commit constraints upsert_driver_location
finds = refl

find_nearby_drivers-IsOffered_example :
    let later = serve_drivers on_duty parked in
    All (IsOffered later) (find_nearby_drivers default_settings 0 0 none 10 later.geo)
find_nearby_drivers-IsOffered_example =
    find_nearby_drivers-IsOffered default_settings 0 0 none 10 on_duty parked parked-Agrees
      on_duty-AllFresh
