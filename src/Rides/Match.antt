-- ===== src/Rides/Match.antt =====
-- The match of a requested ride, which one request resolves.
use ride_flow.Prelude.{true, Option, none, some, ◌≡◌, pos}
use ride_flow.Models.{RideStatus, Uuid, User, Ride, matching, accepted, no_drivers_found, status_eq}
use ride_flow.Schemas.{RideTransitionRequest}
use ride_flow.Config.{Settings}
use ride_flow.Sql.{Sql}
use ride_flow.Redis.{Redis}
use ride_flow.Database.{World, constraints}
use ride_flow.StateMachine.{new_values}
use ride_flow.StateMachine.Update.{ride_of, IsKeyedDb}
use ride_flow.Matching.{find_and_reserve_driver}
use ride_flow.Request.{Env}
use ride_flow.Rides.Transition.{may_transition}

-- The last transition of a match, for either result of the search.
abbrev pub final_status : Option Uuid → RideStatus
final_status none = no_drivers_found
final_status (some _) = accepted

module _ ⦃sql : Sql⦄ ⦃redis : Redis⦄ (settings : Settings) (env : Env) (ride_id : Uuid)
    (payload : RideTransitionRequest) (user : User) (ride : Ride) (w : World) (k : IsKeyedDb w.db)
    (e : ride_of w.db ride_id ≡ some ride)
    (right : may_transition user ride payload.target_status ≡ true) (fine : constraints w.db ≡ true)
    (expects : payload.expected_version ≡ pos ride.version) where
  -- The search of the match, from the pickup of the ride.
  abbrev pub search_of : Option Uuid × redis.Strings
  search_of =
      find_and_reserve_driver settings env.now ride.pickup_lat ride.pickup_lng ride.id w.geo
        w.strings

  abbrev pub searching : Ride
  searching = new_values env.now matching none ride

  abbrev pub matched : Ride
  matched = new_values env.now (final_status search_of.0) search_of.0 searching
