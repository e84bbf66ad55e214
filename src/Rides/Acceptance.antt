-- ===== src/Rides/Acceptance.antt =====
-- A driver who accepts a ride that the search did not give out.
use ride_flow.Prelude.{◌==◌, true, false, eqb-ne, none, some, ◌≡◌, ◌≢◌, refl, ◌∙◌, ap, arith, pos}
use ride_flow.Models.{
  RideStatus, Uuid, User, Ride, driver, matching, accepted, status_eq, ride_transitions,
}
use ride_flow.Schemas.{RideTransitionRequest}
use ride_flow.Config.{Settings}
use ride_flow.Sql.{Sql}
use ride_flow.Redis.{Redis}
use ride_flow.Database.{World, ok, err, http_exception, constraints}
use ride_flow.StateMachine.{allowed, new_values}
use ride_flow.StateMachine.Update.{ride_of, IsKeyedDb}
use ride_flow.StateMachine.Conflicts.{if_self}
use ride_flow.Request.{Env}
use ride_flow.Rides.Transition.{may_transition, serve_transition}
use ride_flow.Rides.Refusals.{serve_transition-forbidden}
use ride_flow.Rides.Outcomes.{serve_transition-done}

matching-accepted : allowed matching accepted ≡ true
unfolding allowed ride_transitions
matching-accepted = refl

-- The fourth case of the rights.
unassigned_may_accept :
    (user : User) (ride : Ride)
    → user.role ≡ driver
    → ride.driver_id ≡ none
    → may_transition user ride accepted ≡ true
unassigned_may_accept user ride role free = rw (role, free) refl

-- It is for the acceptance alone.
unassigned_may_only_accept :
    (user : User) (ride : Ride) (target : RideStatus)
    → user.role ≡ driver
    → ride.driver_id ≡ none
    → target ≢ accepted
    → may_transition user ride target ≡ false
unassigned_may_only_accept user ride target role free other =
    rw (role, free, eqb-ne target accepted other) refl

-- On a database that is in order and has one ride under each `id`, a driver may accept any ride in
-- `matching` that has no driver by naming its version, and the request answers with the ride
-- accepted; but the ride still has no driver, so that this driver's next request on it, with any
-- target other than `accepted`, is refused with 403 and changes nothing.
pub unassigned_acceptance :
    ⦃sql : Sql⦄ ⦃redis : Redis⦄ (settings : Settings) (env env' : Env) (ride_id : Uuid)
    (payload payload' : RideTransitionRequest) (user : User) (ride : Ride) (w : World)
    → IsKeyedDb w.db
    → ride_of w.db ride_id ≡ some ride
    → constraints w.db ≡ true
    → user.role ≡ driver
    → ride.driver_id ≡ none
    → ride.status ≡ matching
    → payload.target_status ≡ accepted
    → payload.expected_version ≡ pos ride.version
    → payload'.target_status ≢ accepted
    → let after = new_values env.now accepted none ride in
      let (result, w') = serve_transition settings env ride_id payload user w in
      (result ≡ ok after)
      × (after.driver_id ≡ none)
      × (serve_transition settings env' ride_id payload' user w' ≡ (err (http_exception 403), w'))
unassigned_acceptance settings env env' ride_id payload payload' user ride w k e fine role free
      status target expects other =
    let right : may_transition user ride payload.target_status ≡ true =
      rw target (unassigned_may_accept user ride role free) in
    let plain : (payload.target_status == matching) ≡ false = rw target refl in
    let moved =
      serve_transition-done settings env ride_id payload user ride w k e right fine expects
        (ground arith) (rw (status, target) matching-accepted) in
    let after = new_values env.now payload.target_status none ride in
    let there =
      moved.1 ride_id
      ∙ if_self ride_id (some (new_values env.now payload.target_status none ride)) _ in
    (
      moved.0 ∙ ap (λ t. ok (new_values env.now t none ride)) target,
      free,
      serve_transition-forbidden settings env' ride_id payload' user after _ there
          (unassigned_may_only_accept user after payload'.target_status role free other),
    )
