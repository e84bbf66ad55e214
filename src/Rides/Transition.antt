-- ===== src/Rides/Transition.antt =====
-- backend/app/routers/rides.py: `transition_ride`.
use ride_flow.Prelude.{
  Bool, not, ◌&&◌, ◌||◌, ◌==◌, nat_eq, option_eq, if◌then◌else◌, Option, none, some, pos, ℤ,
}
use ride_flow.Models.{
  passenger, driver, admin, role_eq, RideStatus, requested, matching, accepted, cancelled,
  no_drivers_found, status_eq, Uuid, User, Ride,
}
use ride_flow.Schemas.{RideTransitionRequest}
use ride_flow.Config.{Settings}
use ride_flow.Sql.{Sql}
use ride_flow.Redis.{Redis}
use ride_flow.Database.{
  World, Handler, Result, ok, err, Exn, http_exception, invalid_transition, stale_version, ◌>>=◌,
  ◌>>◌, pure, raise_if, on_db, with_session,
}
use ride_flow.StateMachine.{apply_transition}
use ride_flow.Matching.{find_and_reserve_driver, release_driver_reservation}
use ride_flow.Request.{Env}
use ride_flow.Rides.{get_or_404}

abbrev pub is_owner_passenger : User → Ride → Bool
is_owner_passenger user ride = user.role == passenger && ride.passenger_id == user.id

abbrev pub is_owner_driver : User → Ride → Bool
is_owner_driver user ride = user.role == driver && ride.driver_id == some user.id

abbrev pub is_admin : User → Bool
is_admin user = user.role == admin

abbrev pub is_unassigned_driver_matching : User → Ride → RideStatus → Bool
is_unassigned_driver_matching user ride target =
    user.role == driver && ride.driver_id == none && target == accepted

abbrev pub may_transition : User → Ride → RideStatus → Bool
may_transition user ride target =
    is_owner_passenger user ride
    || is_owner_driver user ride
    || is_admin user
    || is_unassigned_driver_matching user ride target

-- The `except` clauses.
abbrev pub as_http : Exn → Exn
as_http (invalid_transition current target) = http_exception 422
as_http (stale_version id) = http_exception 409
as_http e = e

module _ ⦃sql : Sql⦄ ⦃redis : Redis⦄ where
  -- `try` and its `except` clauses.
  unfoldable pub catching : {A : Type 0} → Handler A → Handler A
  catching h w = let (r, w') = h w in elim r [ ok a ↦ (ok a, w') | err e ↦ (err (as_http e), w') ]

  module _ (env : Env) where
    -- The second transition of the match.
    unfoldable pub settle : Ride → Option Uuid → Handler Ride
    settle ride none = do
      final ←
          on_db
            (apply_transition env.now (env.uuid 1) ride no_drivers_found (pos ride.version) none)
      pure final.ride
    settle ride (some driver_id) = do
      final ←
          on_db (
            apply_transition env.now (env.uuid 1) ride accepted (pos ride.version) (some driver_id))
      pure final.ride

    -- `release_driver_reservation` for the driver of the ride, if it has one.
    unfoldable pub release_driver_of : Uuid → Option Uuid → redis.Strings → redis.Strings
    release_driver_of ride_id none strings = strings
    release_driver_of ride_id (some driver_id) strings =
        (release_driver_reservation env.now driver_id ride_id strings).1

    unfoldable pub release_if_cancelled : RideStatus → Ride → Handler (Unit {0})
    release_if_cancelled target ride w =
        if target == cancelled
        then (ok tt, record w { strings = release_driver_of ride.id ride.driver_id w.strings })
        else (ok tt, w)

    unfoldable pub move_ride : Ride → RideStatus → ℤ → Handler Ride
    move_ride ride target expected = do
      result ← on_db (apply_transition env.now (env.uuid 0) ride target expected none)
      release_if_cancelled target result.ride
      pure result.ride

  module _ (settings : Settings) (env : Env) where
    -- `find_and_reserve_driver` on the client of the request.
    unfoldable pub reserve_for : Ride → Handler (Option Uuid)
    reserve_for ride w =
        let (found, strings) =
          find_and_reserve_driver settings env.now ride.pickup_lat ride.pickup_lng ride.id w.geo
            w.strings in
        (ok found, record w { strings = strings })

    unfoldable pub match_ride : Ride → ℤ → Handler Ride
    match_ride ride expected = do
      matched ← on_db (apply_transition env.now (env.uuid 0) ride matching expected none)
      found ← reserve_for matched.ride
      settle env matched.ride found

    -- What stands under `try`.
    unfoldable pub perform_transition : RideTransitionRequest → Ride → Handler Ride
    perform_transition payload ride =
        if payload.target_status == matching && ride.status == requested
        then match_ride ride payload.expected_version
        else move_ride env ride payload.target_status payload.expected_version

    unfoldable pub transition_ride : Uuid → RideTransitionRequest → User → Handler Ride
    transition_ride ride_id payload user = do
      ride ← on_db (get_or_404 ride_id)
      raise_if (not (may_transition user ride payload.target_status)) (http_exception 403)
      catching (perform_transition payload ride)

    -- The request as it is served: the handler in its session.
    unfoldable pub serve_transition :
        Uuid → RideTransitionRequest → User → World → Result Ride × World
    serve_transition ride_id payload user = with_session (transition_ride ride_id payload user)
