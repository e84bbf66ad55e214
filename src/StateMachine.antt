-- ===== src/StateMachine.antt =====
-- backend/app/services/ride_state_machine.py: the check of the transition graph and the
-- conditional update of a ride, with the outbox event that goes with it.
pub mod Update
pub mod Apply
pub mod Graph
pub mod Sessions
pub mod Conflicts
pub mod Logged
use ride_flow.Prelude.{
  ℕ, ◌+◌, ℤ, int_eqb, Bool, not, ◌&&◌, ◌==◌, nat_eqb, if◌then◌else◌, List, [], ◌∷◌, Option, none,
  some, any,
}
use ride_flow.Models.{
  RideStatus, status_eqb, status_value, ride_transitions, Uuid, DateTime, Ride, OutboxEvent,
  StatusChanged,
}
use ride_flow.Sql.{Sql}
use ride_flow.Database.{
  Db, Action, Result, ok, err, invalid_transition, stale_version, invalid_request_error, ◌>>=◌,
  ◌>>◌, pure, raise, raise_if, modify, or_raise,
}

-- `target in RIDE_TRANSITIONS.get(current, set())`
unfoldable pub allowed : RideStatus → RideStatus → Bool
allowed current target = any (λ s. status_eqb s target) (ride_transitions current)

unfoldable pub assert_valid_transition :
    {S : Type 0} → RideStatus → RideStatus → Action S (Unit {0})
assert_valid_transition current target =
    raise_if (not (allowed current target)) (invalid_transition current target)

pub record TransitionResult : Type 0 where
  pub ride : Ride
  pub previous_status : RideStatus

-- `extra_fields`, in which the callers give a driver or nothing.
abbrev pub extra_driver : Option Uuid → Option Uuid → Option Uuid
extra_driver none old = old
extra_driver (some d) _ = some d

-- `values`, and the `onupdate` of `updated_at`.
abbrev pub new_values : DateTime → RideStatus → Option Uuid → Ride → Ride
new_values now target extra r = record r {
  status = target;
  version = r.version + 1;
  driver_id = extra_driver extra r.driver_id;
  updated_at = now;
}

-- The event that a transition adds, from the ride as it was refreshed.
abbrev pub status_changed : DateTime → Uuid → Ride → RideStatus → RideStatus → OutboxEvent
status_changed now event_id ride previous target = record {
  id = event_id;
  aggregate_type = "ride";
  aggregate_id = ride.id;
  event_type = "ride.status_changed";
  payload = record {
    ride_id = ride.id;
    previous_status = status_value previous;
    new_status = status_value target;
    driver_id = ride.driver_id;
    passenger_id = ride.passenger_id;
  };
  published = Bool.false;
  created_at = now;
  published_at = none;
}

-- `Ride.id == ride.id, Ride.version == expected_version`
abbrev pub is_version : Uuid → ℤ → Ride → Bool
is_version id expected r = nat_eqb r.id id && int_eqb r.version expected

module _ ⦃sql : Sql⦄ where
  -- UPDATE rides SET ... WHERE id = ... AND version = ... RETURNING version
  unfoldable pub update_ride :
      DateTime → Uuid → ℤ → RideStatus → Option Uuid → Action Db (List Ride)
  update_ride now id expected target extra db =
      let (returned, rides) =
        sql.update (is_version id expected) (new_values now target extra) db.rides in
      (ok returned, record db { rides = rides })

  -- `result.first()`, and the error where no row came back.
  unfoldable pub first_or_stale : Uuid → List Ride → Action Db (Unit {0})
  first_or_stale id [] = raise (stale_version id)
  first_or_stale id (r ∷ rs) = pure tt

  -- `db.refresh(ride)`
  unfoldable pub refresh : Uuid → Action Db Ride
  refresh id db = or_raise (sql.get (λ r. nat_eqb r.id id) db.rides) invalid_request_error db

  unfoldable pub apply_transition :
      DateTime → Uuid → Ride → RideStatus → ℤ → Option Uuid → Action Db TransitionResult
  apply_transition now event_id ride target expected extra = do
    assert_valid_transition ride.status target
    returned ← update_ride now ride.id expected target extra
    first_or_stale ride.id returned
    fresh ← refresh ride.id
    modify λ db. record db {
      outbox_events =
          sql.add (status_changed now event_id fresh ride.status target) db.outbox_events;
    }
    pure (record { ride = fresh; previous_status = ride.status })
